-- ===== src/Incidents/Examples.antt =====
-- Tests of the correlation into cases, and its theorems at concrete inputs.
use cirt_lens.Correlation.Score.{group_cohesion, entity_score, connection_score}
use cirt_lens.Correlation.Candidates.{candidate_pairs}
use cirt_lens.Correlation.Groups.{
  is_group, build_adjacency, search_component, group_loop, connected_groups,
}
use cirt_lens.Base.{◌≢◌, ◌≡◌, refl, some, none, Option, List, [], ◌∷◌, length}
use cirt_lens.Config.{default_settings, minutes}
use cirt_lens.Store.{Incident, Database, ok, err, exception, Outcome}
use cirt_lens.Correlation.Samples.{first_login, second_login}
use cirt_lens.Response.Samples.{sample_case}
use cirt_lens.Incidents.Assess.{assess, fingerprint, principal_of_events, Assessment, assessed}
use cirt_lens.Incidents.Cases.{combined_events, enriched}
use cirt_lens.Incidents.Upsert.{upsert_group, create_or_update_incidents}
use cirt_lens.Incidents.Keeps.{IsUpsert, create_or_update_incidents-IsUpsert}
use cirt_lens.Incidents.Again.{upsert_group_again}
use cirt_lens.Incidents.Actions.{IsCarried, enriched-IsCarried}
use cirt_lens.Incidents.Samples.{digests, fresh, group, evidence_of_group, on_file, nothing_on_file}

abbrev cases_of : Outcome (List Incident × Database) → List Incident
cases_of (ok (is, db)) = is
cases_of (err e) = []

abbrev left_by {ℓ} : {A : Type ℓ} → Database → Outcome (A × Database) → Database
left_by db (ok (a, db')) = db'
left_by db (err e) = db

abbrev first_run : Outcome (List Incident × Database)
first_run =
    create_or_update_incidents default_settings digests fresh (minutes 9) group evidence_of_group
      on_file

-- The case on file is enriched.
enriches : length (left_by on_file first_run).incidents ≡ 1
unfolding create_or_update_incidents connected_groups group_loop search_component build_adjacency
    candidate_pairs connection_score entity_score is_group group_cohesion principal_of_events
    fingerprint assess combined_events
enriches = refl

first_run_ok :
    create_or_update_incidents default_settings digests fresh
      (minutes 9)
      group
      evidence_of_group
      on_file
    ≡ ok (cases_of first_run, left_by on_file first_run)
unfolding create_or_update_incidents connected_groups group_loop search_component build_adjacency
    candidate_pairs connection_score entity_score is_group group_cohesion principal_of_events
    fingerprint assess combined_events
first_run_ok = refl

create_or_update_incidents-IsUpsert_example : IsUpsert on_file (left_by on_file first_run)
create_or_update_incidents-IsUpsert_example =
    create_or_update_incidents-IsUpsert default_settings digests fresh (minutes 9) group
      evidence_of_group on_file (cases_of first_run) (left_by on_file first_run) first_run_ok

abbrev Round : Type 0
Round = Outcome ((Option Incident × List Incident) × Database)

abbrev round : List Incident → Database → Round
round flushed db =
    upsert_group default_settings digests fresh (minutes 9) evidence_of_group group flushed db

abbrev case_of : Round → Incident
case_of (ok ((some i, is), db)) = i
case_of _ = sample_case

abbrev flushed_by : Round → List Incident
flushed_by (ok ((i, is), db)) = is
flushed_by (err e) = []

abbrev opening : Round
opening = round [] nothing_on_file

abbrev opened_database : Database
opened_database = left_by nothing_on_file opening

opening_ok :
    upsert_group default_settings digests fresh
      (minutes 9)
      evidence_of_group
      group
      []
      nothing_on_file
    ≡ ok ((some (case_of opening), flushed_by opening), opened_database)
unfolding upsert_group principal_of_events assess
opening_ok = refl

abbrev case_or_none : Round → Option Incident
case_or_none (ok ((i, is), db)) = i
case_or_none (err e) = none

abbrev again : Round
again = round opened_database.incidents opened_database

again_ok :
    upsert_group default_settings digests fresh
      (minutes 9)
      evidence_of_group
      group
      opened_database.incidents
      opened_database
    ≡ ok ((case_or_none again, flushed_by again), left_by opened_database again)
unfolding upsert_group principal_of_events assess fingerprint combined_events
again_ok = refl

upsert_group_again_example :
    length (left_by opened_database again).incidents ≡ length opened_database.incidents
upsert_group_again_example =
    upsert_group_again default_settings digests fresh (minutes 9) evidence_of_group group []
      nothing_on_file (case_of opening) (flushed_by opening) opened_database opening_ok
      default_settings digests fresh (minutes 9) evidence_of_group opened_database.incidents
      (case_or_none again, flushed_by again) (left_by opened_database again) again_ok

abbrev assessment : Assessment
assessment = assessed default_settings digests "tenant-demo" evidence_of_group group "maya"

enriched-IsCarried_example :
    (sample_case.incident_type ≡ assessment.inference.incident_type
      → IsCarried sample_case.recommended_actions assessment.recommended_actions
          (enriched (minutes 9) "f1" assessment sample_case).recommended_actions)
    × (sample_case.incident_type ≢ assessment.inference.incident_type
        → (enriched (minutes 9) "f1" assessment sample_case).recommended_actions
          ≡ assessment.recommended_actions)
enriched-IsCarried_example = enriched-IsCarried (minutes 9) "f1" assessment sample_case

-- A group whose events name neither a user nor a host fails the run.
nobody :
    upsert_group default_settings digests fresh
      (minutes 9)
      evidence_of_group
      (record first_login { user = none; host = none }
        ∷ record second_login { user = none; host = none }
        ∷ [])
      []
      nothing_on_file
    ≡ err (exception "IndexError")
unfolding upsert_group principal_of_events
nobody = refl
