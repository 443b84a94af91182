-- ===== src/Detection/Fatigue.antt =====
-- What `detect_mfa_fatigue` reports for a user: a full run of denied prompts inside the window.
use cirt_lens.Base.{
  ℕ, zero, suc, ◌+◌, ◌*◌, ◌≤◌, ◌<◌, String, ◌≡◌, refl, ap, true, false, none, some, List, [], ◌∷◌,
  ◌++◌, leb, leb→le, le→leb, arith, Bool-cases, inl, inr, length, take, sum_by, Option-cases,
  length-append,
}
use cirt_lens.Telemetry.{AuthenticationEventInput, DetectionFinding, Reason}
use cirt_lens.Detection.Mfa.{group_span, fatigue_group, fatigue_findings, report_group}

abbrev Prompts : Type 0
Prompts = List AuthenticationEventInput

-- A full run of prompts inside the window.
pub record IsFatigueGroup (threshold window : ℕ) (group : Prompts) : Type 0 where
  pub full : length group ≡ threshold
  pub quick : group_span group ≤ window

-- `group` stands in `denied`, with nothing in between.
pub record IsRunOf (group denied : Prompts) : Type 0 where
  pub before : Prompts
  pub after : Prompts
  pub split : denied ≡ before ++ (group ++ after)

take-append-rest {ℓ} :
    {A : Type ℓ} (n : ℕ) (xs : List A) → (rest : List A) × (xs ≡ take n xs ++ rest)
take-append-rest zero xs = (xs, refl)
take-append-rest (suc n) [] = ([], refl)
take-append-rest (suc n) (x ∷ xs) =
    let (rest, e) = take-append-rest n xs in (rest, ap (λ r. x ∷ r) e)

take-append {ℓ} : {A : Type ℓ} (xs ys : List A) → take (length xs) (xs ++ ys) ≡ xs
take-append [] ys = refl
take-append (x ∷ xs) ys = ap (λ r. x ∷ r) (take-append xs ys)

length-take_le {ℓ} : {A : Type ℓ} (n : ℕ) (xs : List A) → length (take n xs) ≤ n
length-take_le zero xs = omega arith
length-take_le (suc n) [] = omega arith
length-take_le (suc n) (x ∷ xs) = omega (arith, length-take_le n xs)

here_sound :
    (n w : ℕ) (l g : Prompts)
    → leb n (length (take n l)) ≡ true
    → leb (group_span (take n l)) w ≡ true
    → take n l ≡ g
    → IsFatigueGroup n w g × IsRunOf g l
here_sound n w l g full quick e =
    let (rest, split) = take-append-rest n l in
    (
      record {
        full = rw (← e) (omega (arith, leb→le n (length (take n l)) full, length-take_le n l));
        quick = rw (← e) (leb→le (group_span (take n l)) w quick);
      },
      record { before = []; after = rest; split = rw (← e) split },
    )

later_run : (e : AuthenticationEventInput) (es g : Prompts) → IsRunOf g es → IsRunOf g (e ∷ es)
later_run e es g r = record {
  before = e ∷ r.before;
  after = r.after;
  split = ap (λ l. e ∷ l) r.split;
}

-- A group that is reported is a run of exactly `threshold` consecutive denied prompts of the user
-- whose first and last are at most the window apart.
pub fatigue_group_sound :
    (threshold window : ℕ) (denied group : Prompts)
    → fatigue_group threshold window denied ≡ some group
    → IsFatigueGroup threshold window group × IsRunOf group denied
unfolding fatigue_group
fatigue_group_sound n w [] g h = cc
fatigue_group_sound n w (e ∷ es) g h = elim (Bool-cases (leb n (length (take n (e ∷ es))))) [
  | inr short ↦ absurd (ground arith)
  | inl full ↦ elim (Bool-cases (leb (group_span (take n (e ∷ es))) w)) [
    | inl quick ↦ here_sound n w (e ∷ es) g full quick (ground arith)
    | inr slow ↦
        let (found, run) = fatigue_group_sound n w es g (ground arith) in
        (found, later_run e es g run)
  ]
]

no_group_short :
    (n w : ℕ) (e : AuthenticationEventInput) (es : Prompts)
    → fatigue_group n w (e ∷ es) ≡ none
    → leb n (length (take n (e ∷ es))) ≡ true
    → (leb (group_span (take n (e ∷ es))) w ≡ false) × (fatigue_group n w es ≡ none)
unfolding fatigue_group
no_group_short n w e es h full = ground arith

length-take_full {ℓ} : {A : Type ℓ} (n : ℕ) (xs : List A) → n ≤ length xs → length (take n xs) ≡ n
length-take_full zero xs h = refl
length-take_full (suc n) [] h = absurd (omega arith)
length-take_full (suc n) (x ∷ xs) h = ap suc (length-take_full n xs (omega arith))

-- With a positive threshold, no run of `threshold` consecutive denied prompts inside the window is
-- missed: where nothing is reported, every such run is slower than the window.
pub fatigue_group_complete :
    (threshold window : ℕ) (before group after : Prompts)
    → 0 < threshold
    → length group ≡ threshold
    → fatigue_group threshold window (before ++ (group ++ after)) ≡ none
    → window < group_span group
fatigue_group_complete n w [] [] after pos len h = absurd (omega arith)
fatigue_group_complete n w [] (g ∷ gs) after pos len h =
    let same : take n (g ∷ (gs ++ after)) ≡ g ∷ gs = rw (← len) (take-append (g ∷ gs) after) in
    let full : leb n (length (take n (g ∷ (gs ++ after)))) ≡ true =
      rw same (le→leb n (length (g ∷ gs)) (omega arith)) in
    let (slow, _) = no_group_short n w g (gs ++ after) h full in
    let slow' : leb (group_span (g ∷ gs)) w ≡ false = rw same at slow in ground arith
fatigue_group_complete n w (b ∷ before) group after pos len h =
    let full : leb n (length (take n (b ∷ (before ++ (group ++ after))))) ≡ true = le→leb n _ (
      omega (
        arith,
        length-take_full n (b ∷ (before ++ (group ++ after))),
        length-append {0} before (group ++ after),
        length-append {0} group after,
      )) in
    fatigue_group_complete n w before group after pos len
      (no_group_short n w b (before ++ (group ++ after)) h full).1

abbrev pub points : List DetectionFinding → ℕ
points = sum_by (λ f. f.risk_contribution)

points-fatigue_findings :
    (r : Reason) (ids : List String) (e : AuthenticationEventInput) (es : Prompts)
    → points (fatigue_findings r ids (e ∷ es)) ≡ 6 * length (e ∷ es) + 1
unfolding fatigue_findings
points-fatigue_findings r ids e [] = refl
points-fatigue_findings r ids e (f ∷ es) = omega (arith, points-fatigue_findings r ids f es)

points-group :
    (n : ℕ) (user : String) (group : Prompts)
    → 0 < length group
    → points (report_group n user (some group)) ≡ 6 * length group + 1
unfolding report_group
points-group n user [] h = absurd (omega arith)
points-group n user (e ∷ es) h = points-fatigue_findings _ _ e es

-- With a positive threshold, the points reported for one user are 0, where no run of prompts is
-- found, or else six for each prompt of the threshold and one more: 25 for the default threshold
-- 4, the risk that the registry gives the rule.
pub points-report_group :
    (threshold window : ℕ) (user : String) (denied : Prompts)
    → 0 < threshold
    → points (report_group threshold user (fatigue_group threshold window denied))
      ≡ elim (fatigue_group threshold window denied) [ none ↦ 0 | some group ↦ 6 * threshold + 1 ]
points-report_group n w user denied pos = elim (Option-cases (fatigue_group n w denied)) [
  | inl e ↦ rw e (unfold report_group in refl)
  | inr (g, e) ↦
      let sound = fatigue_group_sound n w denied g e in
      rw e (omega (arith, points-group n user g, sound.0.full))
]
