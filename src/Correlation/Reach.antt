-- ===== src/Correlation/Reach.antt =====
-- What a finished search has found.
use cirt_lens.Base.{
  ℕ, zero, suc, String, ◌≡◌, ap, subst, true, not, ◌&&◌, ◌||◌, some, List, [], ◌∷◌, ◌++◌, ◌==◌,
  arith, keep, contains, contains-append, eq_iff, eq_refl, All, All-append, Bool-cases, inl, inr,
}
use cirt_lens.Correlation.Groups.{Adjacency, search_component}

-- There is a way along the edges.
pub data Reach (adj : Adjacency) (start : String) : String → Type 0 where
  here : Reach adj start start
  next : {a b : String} → Reach adj start a → contains (adj a) b ≡ true → Reach adj start b

contains-keep_fresh :
    (seen xs : List String) (x : String)
    → contains (keep (λ i. not (contains seen i)) xs) x ≡ (not (contains seen x) && contains xs x)
contains-keep_fresh seen [] x = ground arith
contains-keep_fresh seen (y ∷ ys) x = elim (Bool-cases (y == x)) [
  | inl e ↦
      let q : y ≡ x = (eq_iff y x).0 e in
      ground (arith, contains-keep_fresh seen ys x, ap (contains seen) q)
  | inr d ↦ ground (arith, contains-keep_fresh seen ys x)
]

-- An edge from a visited node leads to a visited node, or to one that is on the stack.
abbrev ClosedUpTo : Adjacency → List String → List String → Type 0
ClosedUpTo adj stack visited =
    (x y : String)
    → contains visited x ≡ true
    → contains (adj x) y ≡ true
    → (contains visited y || contains stack y) ≡ true

pop-ClosedUpTo :
    (adj : Adjacency) (e : String) (stack visited : List String)
    → contains visited e ≡ true
    → ClosedUpTo adj (e ∷ stack) visited
    → ClosedUpTo adj stack visited
pop-ClosedUpTo adj e stack visited old c x y h k = elim (Bool-cases (e == y)) [
  | inl same ↦
      let v : contains visited y ≡ true =
        subst (λ i. contains visited i ≡ true) ((eq_iff e y).0 same) old in
      rw v
  | inr other ↦ ground (arith, c x y h k)
]

visit-ClosedUpTo :
    (adj : Adjacency) (e : String) (stack visited : List String)
    → ClosedUpTo adj (e ∷ stack) visited
    → ClosedUpTo adj (keep (λ i. not (contains (e ∷ visited) i)) (adj e) ++ stack) (e ∷ visited)
visit-ClosedUpTo adj e stack visited c x y h k = elim (Bool-cases (e == x)) [
  | inl same ↦
      let q : e ≡ x = (eq_iff e x).0 same in
      ground (
        arith,
        ap (λ i. contains (adj i) y) q,
        contains-append (keep (λ i. not (contains (e ∷ visited) i)) (adj e)) stack y,
        contains-keep_fresh (e ∷ visited) (adj e) y,
      )
  | inr other ↦ ground (
    arith,
    c x y (ground arith) k,
    contains-append (keep (λ i. not (contains (e ∷ visited) i)) (adj e)) stack y,
  )
]

-- What a search that ends has found.
pub record IsExact (adj : Adjacency) (stack visited seen : List String) : Type 0 where
  pub closed :
      (x y : String) → contains seen x ≡ true → contains (adj x) y ≡ true → contains seen y ≡ true
  pub grows : (x : String) → contains visited x ≡ true → contains seen x ≡ true
  pub starts : (x : String) → contains stack x ≡ true → contains seen x ≡ true

search-IsExact :
    (adj : Adjacency) (fuel : ℕ) (stack visited component seen found : List String)
    → ClosedUpTo adj stack visited
    → search_component fuel adj stack visited component ≡ some (seen, found)
    → IsExact adj stack visited seen
unfolding search_component
search-IsExact adj zero stack visited component seen found c h = cc
search-IsExact adj (suc n) [] visited component seen found c h =
    let q : visited ≡ seen = ground arith in
    subst (IsExact adj [] visited) q (record {
      closed = λ x y a b. ground (arith, c x y a b);
      grows = λ x a. a;
      starts = λ x a. cc;
    })
search-IsExact adj (suc n) (e ∷ stack) visited component seen found c h =
    elim (Bool-cases (contains visited e)) [
      | inl old ↦
          let r =
            search-IsExact adj n stack visited component seen found
              (pop-ClosedUpTo adj e stack visited old c) (ground arith) in
          record {
            closed = r.closed;
            grows = r.grows;
            starts = λ x a. ground (arith, r.starts x, r.grows e old, eq_iff e x);
          }
      | inr new ↦
          let later = keep (λ i. not (contains (e ∷ visited) i)) (adj e) ++ stack in
          let r =
            search-IsExact adj n later (e ∷ visited) (component ++ e ∷ []) seen found
              (visit-ClosedUpTo adj e stack visited c) (ground arith) in
          record {
            closed = r.closed;
            grows = λ x a. r.grows x (ground arith);
            starts = λ x a. ground (
              arith,
              r.starts x,
              r.grows x,
              contains-append (keep (λ i. not (contains (e ∷ visited) i)) (adj e)) stack x,
            );
          }
    ]

-- The component is what the search adds to the visited ids, and all of it can be reached.
pub record IsComponent (adj : Adjacency) (start : String) (visited seen found : List String)
    : Type 0 where
  pub added : (x : String) → contains seen x ≡ (contains visited x || contains found x)
  pub reached : All (Reach adj start) found

Reach-edges :
    (adj : Adjacency) (start e : String) (xs : List String)
    → Reach adj start e
    → ((x : String) → contains xs x ≡ true → contains (adj e) x ≡ true)
    → All (Reach adj start) xs
Reach-edges adj start e [] r h = tt
Reach-edges adj start e (x ∷ xs) r h =
    (next r (h x (rw (eq_refl x))), Reach-edges adj start e xs r (λ y a. h y (ground arith)))

search-IsComponent :
    (adj : Adjacency) (start : String) (fuel : ℕ)
    (stack visited component seen found before : List String)
    → ((x : String) → contains visited x ≡ (contains before x || contains component x))
    → All (Reach adj start) stack
    → All (Reach adj start) component
    → search_component fuel adj stack visited component ≡ some (seen, found)
    → IsComponent adj start before seen found
unfolding search_component
search-IsComponent adj start zero stack visited component seen found before v s c h = cc
search-IsComponent adj start (suc n) [] visited component seen found before v s c h =
    let p : visited ≡ seen = ground arith in
    let q : component ≡ found = ground arith in
    subst (λ l. IsComponent adj start before l found) p
      (subst (λ l. IsComponent adj start before visited l) q (record { added = v; reached = c }))
search-IsComponent adj start (suc n) (e ∷ stack) visited component seen found before v (r, s) c h =
    elim (Bool-cases (contains visited e)) [
      | inl old ↦
          search-IsComponent adj start n stack visited component seen found before v s c
            (ground arith)
      | inr new ↦
          let fresh = keep (λ i. not (contains (e ∷ visited) i)) (adj e) in
          search-IsComponent adj start n (fresh ++ stack) (e ∷ visited) (component ++ e ∷ []) seen
            found before (λ x. ground (arith, v x, contains-append component (e ∷ []) x))
            (All-append (Reach adj start) fresh stack
              (Reach-edges adj start e fresh r
                (λ x a. ground (arith, contains-keep_fresh (e ∷ visited) (adj e) x)))
              s)
            (All-append (Reach adj start) component (e ∷ []) c (r, tt)) (ground arith)
    ]

-- Where the ids visited before are closed under the edges, a search that ends gives the component
-- of its start: the visited ids are closed under the edges again and hold the start, the
-- component is exactly what was added to them, and everything in it can be reached from the start.
pub search_component-IsExact :
    (adjacency : Adjacency) (fuel : ℕ) (start : String) (visited seen found : List String)
    → ((x y : String)
        → contains visited x ≡ true
        → contains (adjacency x) y ≡ true
        → contains visited y ≡ true)
    → search_component fuel adjacency (start ∷ []) visited [] ≡ some (seen, found)
    → IsExact adjacency (start ∷ []) visited seen × IsComponent adjacency start visited seen found
search_component-IsExact adj fuel start visited seen found c h = (
  search-IsExact adj fuel (start ∷ []) visited [] seen found (λ x y a b. ground (arith, c x y a b))
      h,
  search-IsComponent adj start fuel (start ∷ []) visited [] seen found visited (λ x. ground arith)
      (here, tt) tt h,
)
