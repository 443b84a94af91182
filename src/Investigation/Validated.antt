-- ===== src/Investigation/Validated.antt =====
-- services/investigation_ai.py: when an answer is validated.
use cirt_lens.Base.{
  ◌≡◌, refl, sym, subst, ap, ◌∙◌, ℕ, zero, suc, String, Bool, true, List, [], ◌∷◌, map, all,
  contains, take, keep, All, Bool-cases, inl, inr, arith, ◌==◌, eq_iff, eq_refl, ◌≢◌, ◌⊎◌,
}
use cirt_lens.Events.{Event}
use cirt_lens.Store.{Incident, ok, ok_inj}
use cirt_lens.Incidents.Counting.{sorted_set, contains-sorted_set}
use cirt_lens.Incidents.Upsert.{ids_of}
use cirt_lens.Investigation.Structure.{cited_text, is_event, is_filled, validate_structure}
use cirt_lens.Investigation.Answer.{risky}
use cirt_lens.Investigation.Investigate.{
  Mode, local_deterministic, openai, local_fallback, Investigation, Service, investigate,
}
use cirt_lens.Investigation.Local.{
  cited_events, local_check, claims-have_evidence, local_result-validate_structure,
}
use cirt_lens.Investigation.Answers.{investigate-IsAnswer}

events-cited :
    (ids ts : List String)
    → ((t : String) → contains ts t ≡ true → contains ids t ≡ true)
    → all (is_event ids) (map cited_text ts) ≡ true
events-cited ids [] h = refl
events-cited ids (t ∷ ts) h =
    rw (h t (rw (eq_refl t) refl)) (events-cited ids ts (λ u k. h u (ground (arith, k))))

All-contains :
    (ids : List String) (es : List Event) (t : String)
    → All (λ e. contains ids e.id ≡ true) es
    → contains (ids_of es) t ≡ true
    → contains ids t ≡ true
All-contains ids [] t h k = cc
All-contains ids (e ∷ es) t (a, h) k = elim (Bool-cases (e.id == t)) [
  | inl q ↦ subst (λ x. contains ids x ≡ true) ((eq_iff e.id t).0 q) a
  | inr q ↦ All-contains ids es t h (rw q at k)
]

contains-filled :
    (ts : List String) (t : String) → contains ts t ≡ true → is_filled (map cited_text ts) ≡ true
contains-filled [] t h = cc
contains-filled (u ∷ ts) t h = refl

local_check-valid :
    (activity : Event → String) (ids : List String) (es : List Event)
    → All (λ e. contains ids e.id ≡ true) es
    → is_filled es ≡ true
    → (local_check activity ids es).fully_grounded_structure_valid ≡ true
local_check-valid activity ids [] h f = cc
local_check-valid activity ids (e ∷ es) h f =
    let ts = sorted_set (ids_of (e ∷ es)) in
    rw
      (
        contains-filled ts e.id
            (contains-sorted_set (ids_of (e ∷ es)) e.id ∙ rw (eq_refl e.id) refl),
        events-cited ids ts (λ t k.
            All-contains ids (e ∷ es) t h (sym (contains-sorted_set (ids_of (e ∷ es)) t) ∙ k)),
        claims-have_evidence activity (e ∷ es),
      )
      refl

All_take {κ} : (P : Event → Type κ) (n : ℕ) (es : List Event) → All P es → All P (take n es)
All_take P zero es h = tt
All_take P (suc n) [] h = tt
All_take P (suc n) (e ∷ es) (a, h) = (a, All_take P n es h)

All_keep {κ} :
    (P : Event → Type κ) (p : Event → Bool) (es : List Event) → All P es → All P (keep p es)
All_keep P p [] h = tt
All_keep P p (e ∷ es) (a, h) = elim (Bool-cases (p e)) [
  | inl t ↦ rw t (a, All_keep P p es h)
  | inr t ↦ rw t (All_keep P p es h)
]

take-filled : (n : ℕ) (es : List Event) → is_filled (take (suc n) es) ≡ is_filled es
take-filled n [] = refl
take-filled n (e ∷ es) = refl

is_openai : (m : Mode) → (m ≡ openai) ⊎ (m ≢ openai)
is_openai openai = inl refl
is_openai local_deterministic = inr (λ e. cc)
is_openai local_fallback = inr (λ e. cc)

-- Where the events are those of the case and one of them has a score, every answer is validated,
-- whatever the question and the external model.
pub investigate-validated :
    (s : Service) (i : Incident) (events : List Event) (question : String)
    → All (λ e. contains i.event_ids e.id ≡ true) events
    → is_filled (risky events) ≡ true
    → (r : Investigation) × ((investigate s i events question).0 ≡ ok r) × (r.validated ≡ true)
investigate-validated s i events question h f =
    let (r, e, n, a) = investigate-IsAnswer s i events question in
    (
      r,
      e,
      elim (is_openai r.mode) [
        | inl m ↦ a.external m
        | inr m ↦
            let check = local_check s.activity i.event_ids (cited_events events) in
            let same = ok_inj r.check check (
              sym a.validation
              ∙ ap (λ p. validate_structure p i.event_ids) (a.local m)
              ∙ local_result-validate_structure s.activity i events question) in
            a.verdict
            ∙ ap (λ c. c.fully_grounded_structure_valid) same
            ∙ local_check-valid s.activity i.event_ids (cited_events events)
                (All_take _ 8 (risky events) (All_keep _ _ events h))
                (take-filled 7 (risky events) ∙ f)
      ],
    )
