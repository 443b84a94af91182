-- ===== src/Correlation/Search.antt =====
-- The search for a component: the fuel suffices, the result is closed under adjacency and holds
-- nothing but what can be reached.
use cirt_lens.Base.{
  ℕ, zero, suc, ◌+◌, ◌≤◌, ◌<◌, String, ◌≡◌, ◌≢◌, Bool, true, false, not, none, List, [], ◌∷◌, ◌++◌,
  if◌then◌else◌, arith, length, length-append, keep, contains, sum_by, eq_iff, All, All-append,
  Bool-cases, inl, inr,
}
use cirt_lens.Correlation.Groups.{Adjacency, search_component, search_fuel}

-- The edges of the nodes that are not visited yet.
pending : Adjacency → List String → List String → ℕ
pending adj visited [] = 0
pending adj visited (n ∷ nodes) =
    (if contains visited n then 0 else length (adj n)) + pending adj visited nodes

abbrev fresh : Adjacency → List String → String → List String
fresh adj visited eid = keep (λ i. not (contains (eid ∷ visited) i)) (adj eid)

length-keep_le {ℓ} : {A : Type ℓ} (p : A → Bool) (xs : List A) → length (keep p xs) ≤ length xs
length-keep_le p [] = omega arith
length-keep_le p (x ∷ xs) = ground (arith, length-keep_le p xs)

-- Visiting a node never adds to what is pending.
pending_visit-le :
    (adj : Adjacency) (visited : List String) (e : String) (nodes : List String)
    → pending adj (e ∷ visited) nodes ≤ pending adj visited nodes
unfolding pending
pending_visit-le adj visited e [] = omega arith
pending_visit-le adj visited e (n ∷ nodes) = ground (arith, pending_visit-le adj visited e nodes)

-- Visiting a new node takes its edges away.
pending_visit :
    (adj : Adjacency) (visited : List String) (e : String) (nodes : List String)
    → contains visited e ≡ false
    → contains nodes e ≡ true
    → pending adj (e ∷ visited) nodes + length (adj e) ≤ pending adj visited nodes
unfolding pending
pending_visit adj visited e [] h k = cc
pending_visit adj visited e (n ∷ nodes) h k = ground (
  arith,
  pending_visit adj visited e nodes h,
  pending_visit-le adj visited e nodes,
  eq_iff n e,
  eq_iff e n,
)

-- Every id of the list is one of the nodes.
abbrev Within : List String → List String → Type 0
Within nodes = All (λ i. contains nodes i ≡ true)

-- The edges lead to nodes.
pub record IsClosedGraph (adj : Adjacency) (nodes : List String) : Type 0 where
  pub edges : (i : String) → All (λ j. contains nodes j ≡ true) (adj i)

All-keep {ℓ κ} :
    {A : Type ℓ} (P : A → Type κ) (p : A → Bool) (xs : List A) → All P xs → All P (keep p xs)
All-keep P p [] h = tt
All-keep P p (x ∷ xs) (a, h) = elim (Bool-cases (p x)) [
  | inl t ↦ rw t (a, All-keep P p xs h)
  | inr f ↦ rw f (All-keep P p xs h)
]

search_enough :
    (adj : Adjacency) (nodes : List String) (g : IsClosedGraph adj nodes) (fuel : ℕ)
    (stack visited component : List String)
    → Within nodes stack
    → length stack + pending adj visited nodes < fuel
    → search_component fuel adj stack visited component ≢ none
unfolding search_component
search_enough adj nodes g zero stack visited component w h = absurd (omega arith)
search_enough adj nodes g (suc n) [] visited component w h = cc
search_enough adj nodes g (suc n) (e ∷ stack) visited component (a, w) h =
    elim (Bool-cases (contains visited e)) [
      | inl old ↦ rw old (search_enough adj nodes g n stack visited component w (omega arith))
      | inr new ↦ rw new (
          search_enough adj nodes g n (fresh adj visited e ++ stack) (e ∷ visited)
            (component ++ e ∷ [])
            (All-append (λ i. contains nodes i ≡ true) (fresh adj visited e) stack
              (All-keep (λ i. contains nodes i ≡ true) _ (adj e) (g.edges e)) w)
            (omega (
              arith,
              pending_visit adj visited e nodes new a,
              length-append {0} (fresh adj visited e) stack,
              length-keep_le {0} (λ i. not (contains (e ∷ visited) i)) (adj e),
            )))
    ]

pending-le :
    (adj : Adjacency) (visited nodes : List String)
    → pending adj visited nodes ≤ sum_by (λ i. length (adj i)) nodes
unfolding pending
pending-le adj visited [] = omega arith
pending-le adj visited (n ∷ nodes) = ground (arith, pending-le adj visited nodes)

-- Where every edge leads to one of the ids, the search from any of the ids ends with the fuel that
-- it is given, whatever has been visited before.
pub search_component_total :
    (adjacency : Adjacency) (ids : List String) (start : String) (visited component : List String)
    → IsClosedGraph adjacency ids
    → contains ids start ≡ true
    → search_component (search_fuel adjacency ids) adjacency (start ∷ []) visited component ≢ none
search_component_total adj ids start visited component g h =
    search_enough adj ids g (search_fuel adj ids) (start ∷ []) visited component (h, tt)
      (omega (arith, pending-le adj visited ids))
