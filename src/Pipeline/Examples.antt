-- ===== src/Pipeline/Examples.antt =====
-- Tests of the pipeline, and its theorems at concrete inputs.
use cirt_lens.Incidents.Assess.{assess, principal_of_events}
use cirt_lens.Correlation.Score.{group_cohesion, entity_score, connection_score}
use cirt_lens.Correlation.Candidates.{candidate_pairs}
use cirt_lens.Detection.Run.{run_detection}
use cirt_lens.Correlation.Groups.{
  is_group, build_adjacency, search_component, group_loop, connected_groups,
}
use cirt_lens.Base.{List, ◌++◌, inl, lower, ◌≡◌, refl, true, some, [], length}
use cirt_lens.Telemetry.{network}
use cirt_lens.Detection.Samples.{upload}
use cirt_lens.Store.{Database, ok, Outcome, err, integrity_error}
use cirt_lens.Incidents.Upsert.{create_or_update_incidents, ids_of}
use cirt_lens.Pipeline.Fields.{typed_from_data, set_findings, model_dump}
use cirt_lens.Pipeline.RoundTrip.{typed_from_data-model_dump}
use cirt_lens.Pipeline.Process.{process_raw_telemetry, Processed, nothing_processed}
use cirt_lens.Pipeline.Keeps.{IsProcessed, process_raw_telemetry-IsProcessed}
use cirt_lens.Pipeline.Again.{process_raw_telemetry_again, process_raw_telemetry_outcome}
use cirt_lens.Pipeline.Annotated.{IsAnnotated, process_raw_telemetry-IsAnnotated}
use cirt_lens.Telemetry.{TelemetryInput}
use cirt_lens.Pipeline.Samples.{environment, empty_database, takeover, one_login}

typed_from_data-model_dump_example :
    typed_from_data (set_findings [] (model_dump (network (upload "NET-1" 5 700_000_000))))
    ≡ some (network (upload "NET-1" 5 700_000_000))
typed_from_data-model_dump_example =
    typed_from_data-model_dump (network (upload "NET-1" 5 700_000_000)) [] (refl, refl)

-- A login from an untrusted device and what follows it open a case.
opens :
    length
      (process_raw_telemetry environment true "tenant-demo" takeover empty_database).1.incidents
    ≡ 1
unfolding process_raw_telemetry create_or_update_incidents connected_groups group_loop run_detection
    lower search_component build_adjacency candidate_pairs connection_score entity_score is_group
    group_cohesion principal_of_events assess
opens = refl

process_raw_telemetry-IsProcessed_example :
    IsProcessed empty_database
      (process_raw_telemetry environment true "tenant-demo" takeover empty_database).1
process_raw_telemetry-IsProcessed_example =
    process_raw_telemetry-IsProcessed environment true "tenant-demo" takeover empty_database

abbrev result_of : Outcome Processed → Processed
result_of (ok r) = r
result_of (err p) = nothing_processed

abbrev first_run : Outcome Processed × Database
first_run = process_raw_telemetry environment true "tenant-demo" takeover empty_database

first_run_ok :
    process_raw_telemetry environment true "tenant-demo" takeover empty_database
    ≡ (ok (result_of first_run.0), first_run.1)
unfolding process_raw_telemetry create_or_update_incidents connected_groups group_loop run_detection
    lower search_component build_adjacency candidate_pairs connection_score entity_score is_group
    group_cohesion principal_of_events assess
first_run_ok = refl

process_raw_telemetry_again_example :
    ids_of (process_raw_telemetry environment true "tenant-demo" takeover first_run.1).1.events
    ≡ ids_of first_run.1.events
process_raw_telemetry_again_example =
    process_raw_telemetry_again environment true "tenant-demo" takeover empty_database
      (result_of first_run.0) first_run.1 first_run_ok environment true "tenant-demo"

-- The same login twice.
abbrev twice : List TelemetryInput
twice = one_login ++ one_login

fails :
    process_raw_telemetry environment true "tenant-demo" twice empty_database
    ≡ (err integrity_error, empty_database)
fails =
    (process_raw_telemetry_outcome environment true "tenant-demo" twice empty_database).0
      (inl (refl, refl))

process_raw_telemetry-IsAnnotated_example :
    IsAnnotated (process_raw_telemetry environment true "tenant-demo" takeover empty_database).1
process_raw_telemetry-IsAnnotated_example =
    process_raw_telemetry-IsAnnotated environment true "tenant-demo" takeover empty_database tt
      (λ id h. refl)
