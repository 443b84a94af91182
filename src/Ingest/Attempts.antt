-- ===== src/Ingest/Attempts.antt =====
-- backend/app/platform_api.py, worker.py: a key names one job, and a job is tried boundedly often.
use cirt_lens.Base.{
  ℕ, zero, suc, if◌then◌else◌, ◌+◌, ◌≤◌, ◌≡◌, refl, String, Bool, true, false, Option, none, some,
  List, [], ◌∷◌, ◌++◌, arith, Bool-cases, Option-cases, ◌⊎◌, inl, inr, first, first-append,
  first_passes, eq_iff, subst, sym, leb, max, eq_refl, leb→le,
}
use cirt_lens.Config.{Settings}
use cirt_lens.Store.{Principal}
use cirt_lens.Ingest.Jobs.{
  JobStatus, queued, queue_unavailable, processing, retrying, completed, dead_letter, Command,
  requeue, commands, handle, IngestionJob, deduplicated, has_key, ingest, started, after_attempt,
  deliver, unless_retrying,
}

ingest_found :
    (later : ℕ) (id key : String) (count : ℕ) (stream : Option String) (p : Principal)
    (jobs : List IngestionJob) (j : IngestionJob)
    → first (has_key p.tenant_id key) jobs ≡ some j
    → ingest later id key count stream p jobs ≡ (deduplicated j, jobs)
unfolding ingest
ingest_found later id key count stream p jobs j e = rw (e, ingest) refl

first_added :
    (key : String) (p : Principal) (jobs : List IngestionJob) (j : IngestionJob)
    → first (has_key p.tenant_id key) jobs ≡ none
    → j.tenant_id ≡ p.tenant_id
    → j.idempotency_key ≡ key
    → first (has_key p.tenant_id key) (jobs ++ j ∷ []) ≡ some j
first_added key p jobs j e h k =
    ground (
      arith,
      first-append (has_key p.tenant_id key) jobs (j ∷ []),
      eq_refl p.tenant_id,
      eq_refl key,
    )

ingest-first :
    (now : ℕ) (id key : String) (count : ℕ) (stream : Option String) (p : Principal)
    (jobs : List IngestionJob)
    → (j : IngestionJob) × (first
          (has_key p.tenant_id key)
          (ingest now id key count stream p jobs).1
        ≡ some j)
unfolding ingest
ingest-first now id key count stream p jobs =
    elim (Option-cases (first (has_key p.tenant_id key) jobs)) [
      | inr (j, e) ↦ rw (e, ingest) (j, e)
      | inl e ↦ elim (Option-cases stream) [
        | inr (i, f) ↦ rw (e, f, ingest) (_, first_added key p jobs _ e refl refl)
        | inl f ↦ rw (e, f, ingest) (_, first_added key p jobs _ e refl refl)
      ]
    ]

-- A request to the ingestion, by anybody.
pub record Request : Type 0 where
  pub now : ℕ
  pub id : String
  pub key : String
  pub count : ℕ
  pub stream : Option String
  pub principal : Principal

-- The jobs after a sequence of requests.
abbrev pub serve : List Request → List IngestionJob → List IngestionJob
serve [] jobs = jobs
serve (r ∷ rs) jobs = serve rs (ingest r.now r.id r.key r.count r.stream r.principal jobs).1

first-stays :
    (t key : String) (jobs added : List IngestionJob) (j : IngestionJob)
    → first (has_key t key) jobs ≡ some j
    → first (has_key t key) (jobs ++ added) ≡ some j
first-stays t key jobs added j h = ground (arith, first-append (has_key t key) jobs added)

-- A request only adds a job.
ingest-stays :
    (t key : String) (r : Request) (jobs : List IngestionJob) (j : IngestionJob)
    → first (has_key t key) jobs ≡ some j
    → first (has_key t key) (ingest r.now r.id r.key r.count r.stream r.principal jobs).1 ≡ some j
unfolding ingest
ingest-stays t key r jobs j h =
    elim (Option-cases (first (has_key r.principal.tenant_id r.key) jobs)) [
      | inr (i, e) ↦ rw (e, ingest) h
      | inl e ↦ elim (Option-cases r.stream) [
        | inr (i, f) ↦ rw (e, f, ingest) (first-stays t key jobs _ j h)
        | inl f ↦ rw (e, f, ingest) (first-stays t key jobs _ j h)
      ]
    ]

serve-stays :
    (t key : String) (rs : List Request) (jobs : List IngestionJob) (j : IngestionJob)
    → first (has_key t key) jobs ≡ some j
    → first (has_key t key) (serve rs jobs) ≡ some j
serve-stays t key [] jobs j h = h
serve-stays t key (r ∷ rs) jobs j h =
    serve-stays t key rs (ingest r.now r.id r.key r.count r.stream r.principal jobs).1 j
      (ingest-stays t key r jobs j h)

has_key-names :
    (t key : String) (j : IngestionJob)
    → has_key t key j ≡ true
    → (j.tenant_id ≡ t) × (j.idempotency_key ≡ key)
has_key-names t key j h =
    ((eq_iff j.tenant_id t).0 (ground arith), (eq_iff j.idempotency_key key).0 (ground arith))

-- After a request, whatever its outcome, there is a job of the caller's tenant with the request's
-- key; and after any further requests of anybody, every request of the tenant with that key is
-- answered with that same job and changes nothing.
pub ingest_idempotent :
    (now : ℕ) (id key : String) (count : ℕ) (stream : Option String) (p : Principal)
    (jobs : List IngestionJob)
    → (j : IngestionJob) × (j.tenant_id ≡ p.tenant_id)
      × (j.idempotency_key ≡ key)
      × ((rs : List Request) (later : ℕ) (id' : String) (count' : ℕ) (stream' : Option String)
            (p' : Principal)
          → p'.tenant_id ≡ p.tenant_id
          → let jobs' = serve rs (ingest now id key count stream p jobs).1 in
            ingest later id' key count' stream' p' jobs' ≡ (deduplicated j, jobs'))
ingest_idempotent now id key count stream p jobs =
    let (j, e) = ingest-first now id key count stream p jobs in
    let after = (ingest now id key count stream p jobs).1 in
    let (tenant, named) =
      has_key-names p.tenant_id key j (first_passes (has_key p.tenant_id key) after j e) in
    (
      j,
      tenant,
      named,
      λ rs l i c s p' same. ingest_found l i key c s p' (serve rs after) j (
          subst (λ t. first (has_key t key) (serve rs after) ≡ some j) (sym same)
            (serve-stays p.tenant_id key rs after j e)),
    )

-- How a delivery ends.
abbrev pub IsSettled : Settings → Option IngestionJob → Type 0
IsSettled s none = ⊥
IsSettled s (some j) =
    ((j.status ≡ completed) ⊎ (j.status ≡ dead_letter))
    × (j.attempts ≤ max 1 s.max_processing_attempts)
    × (j.status ≡ dead_letter → s.max_processing_attempts ≤ j.attempts)

attempts-after_attempt :
    (s : Settings) (now : ℕ) (o : Option String) (j : IngestionJob)
    → (after_attempt s now o j).attempts ≡ j.attempts
unfolding after_attempt
attempts-after_attempt s now none j = refl
attempts-after_attempt s now (some e) j = refl

attempt-IsSettled :
    (s : Settings) (now : ℕ) (o : Option String) (j : IngestionJob) (again : Option IngestionJob)
    → j.attempts + 1 ≤ max 1 s.max_processing_attempts
    → (leb s.max_processing_attempts (j.attempts + 1) ≡ false → IsSettled s again)
    → IsSettled s (unless_retrying (after_attempt s now o (started now j)) again)
unfolding after_attempt
attempt-IsSettled s now none j again h k = (inl refl, h, λ d. cc)
attempt-IsSettled s now (some f) j again h k =
    elim (Bool-cases (leb s.max_processing_attempts (j.attempts + 1))) [
      | inl l ↦ rw l (inr refl, h, λ d. leb→le s.max_processing_attempts (j.attempts + 1) l)
      | inr l ↦ rw l (k l)
    ]

-- A job that has been tried less often than configured (or never, where that number is 0) is settled
-- after the deliveries that are left to it, whatever errors the attempts raise, where the worker runs
-- on and its error handler reaches the database and the stream: it is completed or a dead letter,
-- has been tried at most the configured number of times (once if that is 0), and a dead letter at
-- least that often.
pub deliver_settles :
    (s : Settings) (now : ℕ) (failure : ℕ → Option String) (fuel : ℕ) (j : IngestionJob)
    → j.attempts + 1 ≤ max 1 s.max_processing_attempts
    → max 1 s.max_processing_attempts ≤ j.attempts + fuel
    → IsSettled s (deliver fuel s now failure j)
unfolding deliver
deliver_settles s now failure zero j h k = absurd (omega arith)
deliver_settles s now failure (suc fuel) j h k =
    let j' = after_attempt s now (failure j.attempts) (started now j) in
    let tried = attempts-after_attempt s now (failure j.attempts) (started now j) in
    attempt-IsSettled s now (failure j.attempts) j (deliver fuel s now failure j') h
      (λ l. deliver_settles s now failure fuel j' (ground (arith, tried)) (omega (arith, tried)))

-- Whether the message is put back into the stream.
abbrev pub puts_back : List Command → Bool
puts_back [] = false
puts_back (requeue ∷ cs) = true
puts_back (c ∷ cs) = puts_back cs

unless_retrying-commands :
    (status : JobStatus) (j again : Option IngestionJob)
    → elim status [ retrying ↦ again | _ ↦ j ] ≡ (if puts_back (commands status) then again else j)
unless_retrying-commands queued j again = refl
unless_retrying-commands queue_unavailable j again = refl
unless_retrying-commands processing j again = refl
unless_retrying-commands completed j again = refl
unless_retrying-commands retrying j again = refl
unless_retrying-commands dead_letter j again = refl

-- What follows an attempt: another delivery if the message was put back.
abbrev pub resume :
    (IngestionJob → Option IngestionJob) → Option IngestionJob × List Command → Option IngestionJob
resume again (none, cs) = none
resume again (some j, cs) = if puts_back cs then again j else some j

-- Redelivery repeats the worker's handling of the message exactly as long as the handling puts the
-- message back.
pub deliver-handle :
    (fuel : ℕ) (s : Settings) (now : ℕ) (failure : ℕ → Option String) (j : IngestionJob)
    → deliver (suc fuel) s now failure j
      ≡ resume (deliver fuel s now failure) (handle s now (failure j.attempts) (some j))
unfolding deliver handle
deliver-handle fuel s now failure j =
    let j' = after_attempt s now (failure j.attempts) (started now j) in
    unless_retrying-commands j'.status (some j') (deliver fuel s now failure j')
