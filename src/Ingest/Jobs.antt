-- ===== src/Ingest/Jobs.antt =====
-- backend/app/platform_api.py: `ingest`; worker.py: the handling of a message by `run_once`;
-- models.py: `IngestionJob`. The stream is a parameter: it gives a message an id or fails.
use cirt_lens.Base.{
  ℕ, zero, suc, ◌+◌, String, Bool, ◌&&◌, Option, none, some, List, [], ◌∷◌, ◌++◌, ◌==◌, leb,
  if◌then◌else◌, first,
}
use cirt_lens.Config.{Settings}
use cirt_lens.Store.{Principal, Problem, http}

pub data JobStatus : Type 0 where
  queued queue_unavailable processing completed retrying dead_letter : JobStatus

pub record IngestionJob : Type 0 where
  pub id : String
  pub tenant_id : String
  pub idempotency_key : String
  pub status : JobStatus
  pub event_count : ℕ
  pub attempts : ℕ
  pub stream_id : Option String
  pub error : Option String
  pub created_at : ℕ
  pub updated_at : ℕ

-- The answers of `ingest`: accepted with the job, found again, or refused.
pub data Ingested : Type 0 where
  accepted deduplicated : IngestionJob → Ingested
  refused : Problem → Ingested

abbrev pub fresh_job : ℕ → String → String → String → ℕ → IngestionJob
fresh_job now id tenant_id key count = record {
  id = id;
  tenant_id = tenant_id;
  idempotency_key = key;
  status = queued;
  event_count = count;
  attempts = 0;
  stream_id = none;
  error = none;
  created_at = now;
  updated_at = now;
}

-- `filter_by(tenant_id=…, idempotency_key=…)`
abbrev pub has_key : String → String → IngestionJob → Bool
has_key tenant_id key j = j.tenant_id == tenant_id && j.idempotency_key == key

-- The events have passed the validation of the library; `count` of them.
unfoldable pub ingest :
    ℕ
    → (fresh_id key : String) → (count : ℕ) → (stream_id : Option String) → Principal
    → List IngestionJob
    → Ingested × List IngestionJob
ingest now fresh_id key count stream_id p jobs =
    let job = fresh_job now fresh_id p.tenant_id key count in
    elim (first (has_key p.tenant_id key) jobs) [
      | some j ↦ (deduplicated j, jobs)
      | none ↦ elim stream_id [
        | some i ↦
            let sent = record job { stream_id = some i } in (accepted sent, jobs ++ sent ∷ [])
        | none ↦ (
          refused (http 503 "Ingestion queue unavailable"),
          jobs ++ record job { status = queue_unavailable; error = some "unavailable" } ∷ [],
        )
      ]
    ]

-- What the worker sends to the stream for one message: to acknowledge it, and before that to put
-- its payload back into the stream or into the dead-letter stream.
pub data Command : Type 0 where
  acknowledge requeue bury : Command

abbrev pub started : ℕ → IngestionJob → IngestionJob
started now j = record j { status = processing; attempts = j.attempts + 1; updated_at = now }

-- The job after the attempt, for the error, if any, that the processing or the acknowledgement after
-- it raised: of both the handler makes the same.
unfoldable pub after_attempt : Settings → ℕ → Option String → IngestionJob → IngestionJob
after_attempt s now none j = record j { status = completed; updated_at = now }
after_attempt s now (some e) j = record j {
  error = some e;
  updated_at = now;
  status = if leb s.max_processing_attempts j.attempts then dead_letter else retrying;
}

abbrev pub commands : JobStatus → List Command
commands dead_letter = bury ∷ acknowledge ∷ []
commands retrying = requeue ∷ acknowledge ∷ []
commands _ = acknowledge ∷ []

-- One message of `run_once`, for the job that it names.
unfoldable pub handle :
    Settings → ℕ → Option String → Option IngestionJob → Option IngestionJob × List Command
unfolding after_attempt
handle s now failure none = (none, acknowledge ∷ [])
handle s now failure (some j) =
    let j' = after_attempt s now failure (started now j) in (some j', commands j'.status)

abbrev pub unless_retrying : IngestionJob → Option IngestionJob → Option IngestionJob
unless_retrying j again = elim j.status [ retrying ↦ again | _ ↦ some j ]

-- The job of a message that is delivered again as long as it is put back. The error of an attempt
-- is a function of its number. The commits and the stream commands of the error handler itself do
-- not fail here: an error of theirs leaves `run_once`, and the message stays pending.
unfoldable pub deliver : ℕ → Settings → ℕ → (ℕ → Option String) → IngestionJob → Option IngestionJob
deliver zero s now failure j = none
deliver (suc fuel) s now failure j =
    let j' = after_attempt s now (failure j.attempts) (started now j) in
    unless_retrying j' (deliver fuel s now failure j')
