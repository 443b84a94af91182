-- ===== src/Investigation/Grounded.antt =====
-- services/investigation_ai.py: what `validate_structure` accepts.
use cirt_lens.Base.{
  ℕ, ◌≡◌, ◌≢◌, refl, ◌==◌, eq_iff, eq_refl, sym, subst, ◌∙◌, String, Bool, true, false, ◌&&◌, some,
  List, [], ◌∷◌, ◌++◌, map, all, contains, All, Bool-cases, Option-cases, inl, inr, arith,
}
use cirt_lens.Store.{ok, ◌>>=◌, handler_steps, ok_inj}
use cirt_lens.Incidents.Counting.{sorted_set, contains-sorted_set}
use cirt_lens.Investigation.Json.{Json, null, truth, number, text, array, object}
use cirt_lens.Investigation.Structure.{
  Cited, cited_text, cited_number, cited_null, hashed, all_hashed, is_text, texts_of, is_event,
  is_number, is_null, sorted_ids, sorted_numbers, has_evidence, evidence_of, all_evidence, Check,
  no_claims, claims_of, is_filled, checked, validate_claims, validate_structure,
}

-- What is cited is the id of an event.
abbrev pub IsCitation : List String → Json → Type 0
IsCitation ids x = (t : String) × (x ≡ text t) × (contains ids t ≡ true)

-- A claim has a text and evidence, and all of its evidence is among the events.
abbrev pub IsGrounded : List String → Json → Type 0
IsGrounded ids c =
    (has_evidence c ≡ true) × (xs : List Json) × (evidence_of c ≡ ok xs) × All (IsCitation ids) xs

both_true : (a b : Bool) → (a && b) ≡ true → (a ≡ true) × (b ≡ true)
both_true true b h = (refl, h)
both_true false b h = cc

hashed-IsCitation :
    (ids : List String) (x : Json) (c : Cited)
    → hashed x ≡ ok c
    → is_event ids c ≡ true
    → IsCitation ids x
hashed-IsCitation ids (text t) c e h =
    (t, refl, subst (λ d. is_event ids d ≡ true) (sym (ok_inj (cited_text t) c e)) h)
hashed-IsCitation ids (number n) c e h =
    let no = subst (λ d. is_event ids d ≡ true) (sym (ok_inj (cited_number n) c e)) h in cc
hashed-IsCitation ids (truth true) c e h =
    let no = subst (λ d. is_event ids d ≡ true) (sym (ok_inj (cited_number 1) c e)) h in cc
hashed-IsCitation ids (truth false) c e h =
    let no = subst (λ d. is_event ids d ≡ true) (sym (ok_inj (cited_number 0) c e)) h in cc
hashed-IsCitation ids null c e h =
    let no = subst (λ d. is_event ids d ≡ true) (sym (ok_inj cited_null c e)) h in cc
hashed-IsCitation ids (array xs) c e h = cc
hashed-IsCitation ids (object fs) c e h = cc

all_hashed-IsCitation :
    (ids : List String) (xs : List Json) (cs : List Cited)
    → all_hashed xs ≡ ok cs
    → all (is_event ids) cs ≡ true
    → All (IsCitation ids) xs
all_hashed-IsCitation ids [] cs e h = tt
all_hashed-IsCitation ids (x ∷ xs) cs e h =
    let (c, (p, q)) = handler_steps (λ c. all_hashed xs >>= (λ cs. ok (c ∷ cs))) (hashed x) e in
    let (ds, (r, t)) = handler_steps (λ cs. ok (c ∷ cs)) (all_hashed xs) q in
    let k = subst (λ z. all (is_event ids) z ≡ true) (sym (ok_inj (c ∷ ds) cs t)) h in
    (
      hashed-IsCitation ids x c p (both_true (is_event ids c) _ k).0,
      all_hashed-IsCitation ids xs ds r (both_true (is_event ids c) _ k).1,
    )

all_events :
    (ids : List String) (cs : List Cited)
    → all is_text cs ≡ true
    → ((t : String) → contains (texts_of cs) t ≡ true → contains ids t ≡ true)
    → all (is_event ids) cs ≡ true
all_events ids [] h k = refl
all_events ids (cited_text t ∷ cs) h k =
    rw (k t (rw (eq_refl t) refl)) (all_events ids cs h (λ u j. k u (ground (arith, j))))
all_events ids (cited_number n ∷ cs) h k = cc
all_events ids (cited_null ∷ cs) h k = cc

all-cited_text :
    (ids ts : List String) (t : String)
    → all (is_event ids) (map cited_text ts) ≡ true
    → contains ts t ≡ true
    → contains ids t ≡ true
all-cited_text ids [] t h k = cc
all-cited_text ids (u ∷ ts) t h k = elim (Bool-cases (u == t)) [
  | inl e ↦ subst (λ x. contains ids x ≡ true) ((eq_iff u t).0 e) (both_true (contains ids u) _ h).0
  | inr e ↦ all-cited_text ids ts t (both_true (contains ids u) _ h).1 (rw e at k)
]

no_numbers :
    (ids : List String) (ns : List ℕ) (ds : List Cited)
    → map cited_number ns ≡ ds
    → is_filled ds ≡ true
    → all (is_event ids) ds ≡ true
    → ⊥
no_numbers ids [] ds e f h = let no = subst (λ x. is_filled x ≡ true) (sym e) f in cc
no_numbers ids (n ∷ ns) ds e f h = let no = subst (λ x. all (is_event ids) x ≡ true) (sym e) h in cc

-- All elements of the sorted set are among the events only if all elements of the list are.
sorted_ids-events :
    (ids : List String) (cs ds : List Cited)
    → sorted_ids cs ≡ ok ds
    → is_filled ds ≡ true
    → all (is_event ids) ds ≡ true
    → all (is_event ids) cs ≡ true
unfolding sorted_ids
sorted_ids-events ids cs ds e f h = elim (Bool-cases (all is_text cs)) [
  | inl a ↦
      let same = ok_inj (map cited_text (sorted_set (texts_of cs))) ds (rw a at e) in
      all_events ids cs a (λ t k.
        all-cited_text ids (sorted_set (texts_of cs)) t
          (subst (λ x. all (is_event ids) x ≡ true) (sym same) h)
          (contains-sorted_set (texts_of cs) t ∙ k))
  | inr a ↦ elim (Bool-cases (all is_number cs)) [
    | inl b ↦ absurd (
        no_numbers ids (sorted_numbers cs) ds
          (ok_inj (map cited_number (sorted_numbers cs)) ds (rw (a, b) at e)) f h)
    | inr b ↦ elim (Bool-cases (all is_null cs)) [
      | inl c ↦
          let no =
            subst (λ x. all (is_event ids) x ≡ true)
              (sym (ok_inj (cited_null ∷ []) ds (rw (a, b, c) at e))) h in
          absurd cc
      | inr c ↦ let no = rw (a, b, c) at e in absurd cc
    ]
  ]
]

All_left {ℓ κ} : {A : Type ℓ} (P : A → Type κ) (xs ys : List A) → All P (xs ++ ys) → All P xs
All_left P [] ys h = tt
All_left P (x ∷ xs) ys (p, h) = (p, All_left P xs ys h)

All_right {ℓ κ} : {A : Type ℓ} (P : A → Type κ) (xs ys : List A) → All P (xs ++ ys) → All P ys
All_right P [] ys h = h
All_right P (x ∷ xs) ys (p, h) = All_right P xs ys h

all_evidence-split :
    (ids : List String) (cs : List Json) (xs : List Json)
    → all_evidence cs ≡ ok xs
    → all has_evidence cs ≡ true
    → All (IsCitation ids) xs
    → All (IsGrounded ids) cs
unfolding all_evidence
all_evidence-split ids [] xs e h k = tt
all_evidence-split ids (c ∷ cs) xs e h k =
    let (es, (p, q)) =
      handler_steps (λ es. all_evidence cs >>= (λ rest. ok (es ++ rest))) (evidence_of c) e in
    let (rest, (r, t)) = handler_steps (λ rest. ok (es ++ rest)) (all_evidence cs) q in
    let j = subst (λ z. All (IsCitation ids) z) (sym (ok_inj (es ++ rest) xs t)) k in
    let (here, later) = both_true (has_evidence c) _ h in
    (
      (here, es, p, All_left (IsCitation ids) es rest j),
      all_evidence-split ids cs rest r later (All_right (IsCitation ids) es rest j),
    )

-- What is known of claims that pass the validation with all its tests.
validate_claims-IsGrounded :
    (ids : List String) (cs : List Json) (check : Check)
    → validate_claims ids cs ≡ ok check
    → check.fully_grounded_structure_valid ≡ true
    → (cs ≢ []) × All (IsGrounded ids) cs
validate_claims-IsGrounded ids cs check e h =
    let (xs, (p, q)) =
      handler_steps
        (λ found.
          all_hashed found >>= (λ cited. sorted_ids cited >>= (λ is. ok (checked ids cs is))))
        (all_evidence cs) e in
    let (hs, (r, t)) =
      handler_steps (λ cited. sorted_ids cited >>= (λ is. ok (checked ids cs is))) (all_hashed xs)
        q in
    let (ds, (u, v)) = handler_steps (λ is. ok (checked ids cs is)) (sorted_ids hs) t in
    let k =
      subst (λ c. c.fully_grounded_structure_valid ≡ true)
        (sym (ok_inj (checked ids cs ds) check v)) h in
    let (valid, have) = both_true (is_filled ds && all (is_event ids) ds) _ k in
    let (filled, events) = both_true (is_filled ds) _ valid in
    let (some_claim, evidence) = both_true (is_filled cs) _ have in
    (
      λ none_there. filled_not_empty cs some_claim none_there,
      all_evidence-split ids cs xs p evidence
          (all_hashed-IsCitation ids xs hs r (sorted_ids-events ids hs ds u filled events)),
    )
  where
    filled_not_empty : (cs : List Json) → is_filled cs ≡ true → cs ≡ [] → ⊥
    filled_not_empty [] a b = cc
    filled_not_empty (x ∷ xs) a b = cc

-- A payload that passes the validation with all its tests is a dict with a list of claims, at least
-- one, each with a text and with evidence, and everything that a claim cites is an event of the case.
pub validate_structure-IsGrounded :
    (payload : Json) (event_ids : List String) (check : Check)
    → validate_structure payload event_ids ≡ ok check
    → check.fully_grounded_structure_valid ≡ true
    → (cs : List Json) × (claims_of payload ≡ some cs) × (cs ≢ []) × All (IsGrounded event_ids) cs
unfolding validate_structure
validate_structure-IsGrounded payload event_ids check e h =
    elim (Option-cases (claims_of payload)) [
      | inl a ↦
          let no =
            subst (λ c. c.fully_grounded_structure_valid ≡ true)
              (sym (ok_inj no_claims check (rw (a, validate_structure) at e))) h in
          absurd cc
      | inr (cs, a) ↦
          let (some_claim, grounded) =
            validate_claims-IsGrounded event_ids cs check (rw (a, validate_structure) at e) h in
          (cs, a, some_claim, grounded)
    ]
