-- ===== src/Incidents/Kept.antt =====
-- correlation_engine.py: a case that is kept by a write, and the cases with distinct ids.
use cirt_lens.Base.{
  ℕ, ◌≡◌, refl, sym, subst, String, Bool, true, false, some, List, [], ◌∷◌, ◌++◌, ◌==◌, first, any,
  any-append, first_head, first-any, ◌∙◌, ap, All, arith, Bool-cases, inl, inr, eq_iff, eq_sym,
}
use cirt_lens.Store.{Incident, save_incident}
use cirt_lens.Incidents.Assess.{Assessment}
use cirt_lens.Incidents.Cases.{is_open, enriched}

-- The ids of the cases are distinct: the primary key.
abbrev pub IsKeyed : List Incident → Type 0
IsKeyed [] = Unit
IsKeyed (i ∷ is) = (any (λ (j : Incident). j.id == i.id) is ≡ false) × IsKeyed is

-- The case is the only one of its id.
abbrev pub IsTheOnly : Incident → List Incident → Type 0
IsTheOnly i = All (λ (j : Incident). (j.id == i.id) ≡ true → j ≡ i)

none-IsTheOnly :
    (i : Incident) (rows : List Incident)
    → any (λ (j : Incident). j.id == i.id) rows ≡ false
    → IsTheOnly i rows
none-IsTheOnly i [] h = tt
none-IsTheOnly i (j ∷ rows) h = (λ e. absurd (ground arith), none-IsTheOnly i rows (ground arith))

pub first-IsTheOnly :
    (p : Incident → Bool) (i : Incident) (rows : List Incident)
    → IsKeyed rows
    → first p rows ≡ some i
    → IsTheOnly i rows
first-IsTheOnly p i [] k h = tt
first-IsTheOnly p i (j ∷ rows) (k, ks) h = elim (Bool-cases (p j)) [
  | inl t ↦
      let same = first_head p j rows i t h in
      (λ e. same, subst (λ x. IsTheOnly x rows) same (none-IsTheOnly j rows k))
  | inr f ↦
      let later = rw f at h in
      (
        λ e.
            cc
              (k, first-any p (λ (x : Incident). x.id == j.id) rows i later (eq_sym i.id j.id ∙ e)),
        first-IsTheOnly p i rows ks later,
      )
]

-- What enrichment never changes; a case that is contained or resolved it does not touch at all.
pub record IsKept (i j : Incident) : Type 0 where
  pub same_id : j.id ≡ i.id
  pub same_tenant : j.tenant_id ≡ i.tenant_id
  pub same_status : j.status ≡ i.status
  pub same_disposition : j.disposition ≡ i.disposition
  pub same_creation : j.created_at ≡ i.created_at
  pub same_triage : j.triaged_at ≡ i.triaged_at
  pub same_analyst : j.assigned_to ≡ i.assigned_to
  pub closed : is_open i.status ≡ false → j ≡ i

-- Every case is kept in its place; new ones may follow.
abbrev pub AllKept : List Incident → List Incident → Type 0
AllKept [] js = Unit
AllKept (i ∷ is) [] = ⊥
AllKept (i ∷ is) (j ∷ js) = IsKept i j × AllKept is js

IsKept-refl : (i : Incident) → IsKept i i
IsKept-refl i = record {
  same_id = refl;
  same_tenant = refl;
  same_status = refl;
  same_disposition = refl;
  same_creation = refl;
  same_triage = refl;
  same_analyst = refl;
  closed = λ h. refl;
}

IsKept-trans : {i j k : Incident} → IsKept i j → IsKept j k → IsKept i k
IsKept-trans {i} {j} a b = record {
  same_id = b.same_id ∙ a.same_id;
  same_tenant = b.same_tenant ∙ a.same_tenant;
  same_status = b.same_status ∙ a.same_status;
  same_disposition = b.same_disposition ∙ a.same_disposition;
  same_creation = b.same_creation ∙ a.same_creation;
  same_triage = b.same_triage ∙ a.same_triage;
  same_analyst = b.same_analyst ∙ a.same_analyst;
  closed = λ c. b.closed (ap is_open a.same_status ∙ c) ∙ a.closed c;
}

pub AllKept-refl : (is : List Incident) → AllKept is is
AllKept-refl [] = tt
AllKept-refl (i ∷ is) = (IsKept-refl i, AllKept-refl is)

pub AllKept-trans : (is js ks : List Incident) → AllKept is js → AllKept js ks → AllKept is ks
AllKept-trans [] js ks a b = tt
AllKept-trans (i ∷ is) [] ks a b = elim a [ ]
AllKept-trans (i ∷ is) (j ∷ js) [] a b = elim b [ ]
AllKept-trans (i ∷ is) (j ∷ js) (k ∷ ks) (a, as') (b, bs) =
    (IsKept-trans a b, AllKept-trans is js ks as' bs)

pub AllKept-append : (is new_rows : List Incident) → AllKept is (is ++ new_rows)
AllKept-append [] rows = tt
AllKept-append (i ∷ is) rows = (IsKept-refl i, AllKept-append is rows)

-- The enriched case, which was open, in place of the case that it was.
pub enriched-IsKept :
    (now : ℕ) (fp : String) (a : Assessment) (i : Incident)
    → is_open i.status ≡ true
    → IsKept i (enriched now fp a i)
unfolding enriched
enriched-IsKept now fp a i h = record {
  same_id = refl;
  same_tenant = refl;
  same_status = refl;
  same_disposition = refl;
  same_creation = refl;
  same_triage = refl;
  same_analyst = refl;
  closed = λ c. absurd (ground arith);
}

pub save-AllKept :
    (i j : Incident) (rows : List Incident)
    → IsKept i j
    → IsTheOnly i rows
    → AllKept rows (save_incident j rows)
save-AllKept i j [] k o = tt
save-AllKept i j (x ∷ rows) k (o, os) = elim (Bool-cases (x.id == j.id)) [
  | inl e ↦ rw e (
    subst (λ y. IsKept y j) (sym (o (subst (λ y. (x.id == y) ≡ true) k.same_id e))) k,
    save-AllKept i j rows k os,
  )
  | inr e ↦ rw e (IsKept-refl x, save-AllKept i j rows k os)
]

any-save :
    (j : Incident) (id : String) (rows : List Incident)
    → any (λ (x : Incident). x.id == id) (save_incident j rows)
      ≡ any (λ (x : Incident). x.id == id) rows
any-save j id [] = refl
any-save j id (x ∷ rows) = elim (Bool-cases (x.id == j.id)) [
  | inl e ↦ rw (e, any-save j id rows, (eq_iff x.id j.id).0 e) refl
  | inr e ↦ rw (e, any-save j id rows) refl
]

pub save-IsKeyed :
    (j : Incident) (rows : List Incident) → IsKeyed rows → IsKeyed (save_incident j rows)
save-IsKeyed j [] k = tt
save-IsKeyed j (x ∷ rows) (k, ks) = elim (Bool-cases (x.id == j.id)) [
  | inl e ↦ rw e (
    any-save j j.id rows
        ∙ subst (λ y. any (λ (z : Incident). z.id == y) rows ≡ false) ((eq_iff x.id j.id).0 e) k,
    save-IsKeyed j rows ks,
  )
  | inr e ↦ rw e (any-save j x.id rows ∙ k, save-IsKeyed j rows ks)
]

pub append-IsKeyed :
    (i : Incident) (rows : List Incident)
    → IsKeyed rows
    → any (λ (x : Incident). x.id == i.id) rows ≡ false
    → IsKeyed (rows ++ i ∷ [])
append-IsKeyed i [] k h = (refl, tt)
append-IsKeyed i (x ∷ rows) (k, ks) h = (
  any-append (λ (z : Incident). z.id == x.id) rows (i ∷ []) ∙ ground (arith, eq_sym i.id x.id),
  append-IsKeyed i rows ks (ground arith),
)
