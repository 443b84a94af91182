-- ===== src/Detection/TravelWindow.antt =====
-- The incremental loop of `detect_impossible_travel` against a plain description: each login is
-- compared with every earlier one, the newest first. Grouping by user and pruning lose nothing.
use mathlib.Core.List.{reverse, reverse-append}
use cirt_lens.Base.{
  ℕ, ◌-◌, ◌≤◌, ◌≡◌, refl, ap, Bool, true, false, ◌&&◌, Option, List, [], ◌∷◌, ◌++◌, ◌==◌, ltb,
  arith, first, first-append, Bool-cases, inl, inr, eq_iff, sort_by, IsSortedFrom,
  sort_by-IsSortedFrom,
}
use cirt_lens.Config.{Settings, minutes}
use cirt_lens.Telemetry.{TelemetryInput, AuthenticationEventInput, DetectionFinding}
use cirt_lens.Detection.Travel.{
  or_default, successful, prune, conflicts, travel_findings, Recent, no_recent, store, travel_loop,
  detect_impossible_travel,
}

-- An earlier login of the same user that conflicts with the current one.
abbrev pub conflicts_user : ℕ → AuthenticationEventInput → AuthenticationEventInput → Bool
conflicts_user window c p = (p.user == c.user) && conflicts window c p

-- `seen` holds all earlier logins, the newest first.
unfoldable pub travel_reference :
    ℕ → List AuthenticationEventInput → List AuthenticationEventInput → List DetectionFinding
travel_reference window [] seen = []
travel_reference window (c ∷ cs) seen =
    travel_findings c (first (conflicts_user window c) seen)
    ++ travel_reference window cs (c ∷ seen)

old_no_conflict :
    (w : ℕ) (x c p : AuthenticationEventInput)
    → x.timestamp ≤ c.timestamp
    → ltb w (x.timestamp - p.timestamp) ≡ true
    → conflicts w c p ≡ false
unfolding conflicts
old_no_conflict w x c p h e = ground arith

-- What is pruned at `x` conflicts with no login from `x` on.
first-prune :
    (w : ℕ) (x c : AuthenticationEventInput) (l : List AuthenticationEventInput)
    → x.timestamp ≤ c.timestamp
    → first (conflicts w c) (reverse (prune w x l)) ≡ first (conflicts w c) (reverse l)
unfolding prune
first-prune w x c [] h = refl
first-prune w x c (p ∷ ps) h = elim (Bool-cases (ltb w (x.timestamp - p.timestamp))) [
  | inl old ↦ rw old (
      rw (reverse-append (p ∷ []) ps) (
        ground (
          arith,
          first-prune w x c ps h,
          old_no_conflict w x c p h old,
          first-append (conflicts w c) (reverse ps) (p ∷ []),
        )))
  | inr new ↦ rw new
]

-- From time `t` on, the bucket of a user answers as all earlier logins do.
abbrev Agrees : ℕ → ℕ → Recent → List AuthenticationEventInput → Type 0
Agrees w t recent seen =
    (c : AuthenticationEventInput)
    → t ≤ c.timestamp
    → first (conflicts w c) (reverse (recent c.user)) ≡ first (conflicts_user w c) seen

store-Agrees :
    (w t : ℕ) (recent : Recent) (seen : List AuthenticationEventInput)
    (x : AuthenticationEventInput)
    → t ≤ x.timestamp
    → Agrees w t recent seen
    → Agrees w x.timestamp (store recent x.user (prune w x (recent x.user) ++ x ∷ [])) (x ∷ seen)
store-Agrees w t recent seen x h a c k = elim (Bool-cases (x.user == c.user)) [
  | inl e ↦ rw e (
      rw (reverse-append (prune w x (recent x.user)) (x ∷ [])) (
        ground (
          arith,
          first-prune w x c (recent x.user) k,
          a c (omega arith),
          ap recent ((eq_iff x.user c.user).0 e),
        )))
  | inr e ↦ rw e (a c (omega arith))
]

travel_loop-eq-reference :
    (w : ℕ) (xs : List AuthenticationEventInput) (t : ℕ) (recent : Recent)
    (seen : List AuthenticationEventInput)
    → IsSortedFrom (λ (e : AuthenticationEventInput). e.timestamp) t xs
    → Agrees w t recent seen
    → travel_loop w recent xs ≡ travel_reference w xs seen
unfolding travel_loop travel_reference
travel_loop-eq-reference w [] t recent seen s a = refl
travel_loop-eq-reference w (x ∷ xs) t recent seen (h, s) a =
    rw (first-prune w x x (recent x.user) (omega arith)) (
      rw (a x h) (
        ap (λ r. travel_findings x (first (conflicts_user w x) seen) ++ r)
          (travel_loop-eq-reference w xs x.timestamp _ (x ∷ seen) s
            (store-Agrees w t recent seen x h a))))

no_recent-Agrees : (w : ℕ) → Agrees w 0 no_recent []
no_recent-Agrees w c h = refl

-- For all settings, events and window arguments, impossible-travel detection gives the findings of
-- the plain description: the successful logins are taken in the order of time, and each is paired
-- with the newest earlier login of the same user in another country inside the window.
pub detect_impossible_travel-eq-reference :
    (s : Settings) (events : List TelemetryInput) (window : Option ℕ)
    → detect_impossible_travel s events window
      ≡ travel_reference
          (minutes (or_default window s.impossible_travel_window_minutes))
          (sort_by (λ (e : AuthenticationEventInput). e.timestamp) (successful events))
          []
unfolding detect_impossible_travel
detect_impossible_travel-eq-reference s events window =
    travel_loop-eq-reference _ _ 0 no_recent []
      (sort_by-IsSortedFrom (λ (e : AuthenticationEventInput). e.timestamp) (successful events))
      (no_recent-Agrees (minutes (or_default window s.impossible_travel_window_minutes)))
