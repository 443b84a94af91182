-- ===== src/Ingest/Examples.antt =====
-- Tests of ingestion and of the worker, and their theorems at concrete inputs.
use cirt_lens.Base.{ℕ, ◌≡◌, refl, String, none, some, Option, [], ◌∷◌, arith, zero, suc}
use cirt_lens.Config.{default_settings}
use cirt_lens.Response.Samples.{responder}
use cirt_lens.Ingest.Jobs.{
  after_attempt, IngestionJob, JobStatus, fresh_job, Ingested, deduplicated, ingest, handle,
  deliver, completed, dead_letter, queue_unavailable, acknowledge, requeue,
}
use cirt_lens.Store.{Principal}
use cirt_lens.Base.{List}
use cirt_lens.Ingest.Attempts.{Request, serve, ingest_idempotent, IsSettled, deliver_settles}

abbrev waiting : IngestionJob
waiting = fresh_job 1 "JOB-1" "tenant-demo" "key-0001" 2

abbrev status_of : Ingested → Option JobStatus
status_of (deduplicated j) = some j.status
status_of _ = none

abbrev attempts_of : Option IngestionJob → Option (ℕ × JobStatus)
attempts_of none = none
attempts_of (some j) = some (j.attempts, j.status)

-- The stream is down at the first request: the second is answered with the job of the first.
stays_unavailable :
    status_of
      (ingest 2 "JOB-2" "key-0001" 2
        (some "1-0")
        responder
        (ingest 1 "JOB-1" "key-0001" 2 none responder []).1).0
    ≡ some queue_unavailable
unfolding ingest
stays_unavailable = refl

abbrev always : ℕ → Option String
always n = some "malformed"

abbrev once : ℕ → Option String
once zero = some "malformed"
once (suc n) = none

requeues :
    (handle default_settings 2 (some "malformed") (some waiting)).1 ≡ requeue ∷ acknowledge ∷ []
unfolding handle
requeues = refl

buries : attempts_of (deliver 3 default_settings 2 always waiting) ≡ some (3, dead_letter)
unfolding deliver after_attempt
buries = refl

recovers : attempts_of (deliver 3 default_settings 2 once waiting) ≡ some (2, completed)
unfolding deliver after_attempt
recovers = refl

ingest_idempotent_example :
    (j : IngestionJob) × (j.tenant_id ≡ "tenant-demo")
    × (j.idempotency_key ≡ "key-0001")
    × ((rs : List Request) (later : ℕ) (id : String) (count : ℕ) (stream : Option String)
          (p : Principal)
        → p.tenant_id ≡ "tenant-demo"
        → let jobs = serve rs (ingest 1 "JOB-1" "key-0001" 2 (some "1-0") responder []).1 in
          ingest later id "key-0001" count stream p jobs ≡ (deduplicated j, jobs))
ingest_idempotent_example = ingest_idempotent 1 "JOB-1" "key-0001" 2 (some "1-0") responder []

deliver_settles_example : IsSettled default_settings (deliver 3 default_settings 2 always waiting)
deliver_settles_example =
    deliver_settles default_settings 2 always 3 waiting (omega arith) (omega arith)
