-- ===== src/Taxes/Offsets.antt =====
-- The invariant of the offsets: what the credit notes take off a tax that was withheld never
-- exceeds it.
use biz360_sme_erp_e_tims.Base.{
  ℕ, ◌<◌, Bool, true, false, not, ◌&&◌, ◌||◌, ◌≡◌, refl, ap, Option, none, some, List, [], ◌∷◌,
  ◌==◌, All, All-map, All-update_where, update_where, keep_where, sum_of, if◌then◌else◌, Bool-cases,
  inl, inr, arith,
}
use biz360_sme_erp_e_tims.Base.Int.{ℤ, pos, ◌+ℤ◌, ◌≤ℤ◌, int_laws}
use biz360_sme_erp_e_tims.Taxes.{Deduction, SupplierNote, Taxes}
use biz360_sme_erp_e_tims.Taxes.Withholding.{
  is_matched, has_id_among, offset_in, is_created_in, remittance_summary,
}

-- No two elements have one id.
abbrev pub AreApart : {A : Type 0} → (A → ℕ) → List A → Type 0
AreApart id [] = Unit
AreApart id (x ∷ xs) = All (λ y. (id y == id x) ≡ false) xs × AreApart id xs

-- What a note takes off a deduction.
abbrev pub offset_of : Deduction → SupplierNote → ℤ
offset_of d n = elim n.offset [
  | none ↦ pos 0
  | some (k, a) ↦ if n.org == d.org && not n.deleted && d.id == k then a else pos 0
]

-- An offset is not negative, and names a deduction that is there.
abbrev pub IsOffset : ℕ → Option (ℕ × ℤ) → Type 0
IsOffset next none = Unit
IsOffset next (some (k, a)) = (k < next) × (pos 0 ≤ℤ a)

abbrev pub IsNote : ℕ → SupplierNote → Type 0
IsNote next n = (n.id < next) × IsOffset next n.offset

abbrev pub IsTax : ℕ → Deduction → Type 0
IsTax next d = (d.id < next) × (pos 0 ≤ℤ d.withheld)

-- The notes take no more off a deduction than was withheld.
abbrev pub Covers : List SupplierNote → Deduction → Type 0
Covers ns d = sum_of (offset_of d) ns ≤ℤ d.withheld

pub record OffsetsFit (st : Taxes) : Type 0 where
  pub taxes : All (IsTax st.next_id) st.deductions
  pub notes : All (IsNote st.next_id) st.notes
  pub apart : AreApart (λ (n : SupplierNote). n.id) st.notes
  pub taxes_apart : AreApart (λ (d : Deduction). d.id) st.deductions
  pub covers : All (Covers st.notes) st.deductions

pub sum-mono :
    {A : Type 0} (f g : A → ℤ) (xs : List A) → All (λ x. f x ≤ℤ g x) xs → sum_of f xs ≤ℤ sum_of g xs
sum-mono f g [] h = omega arith
sum-mono f g (x ∷ xs) h = omega (int_laws, h.0, sum-mono f g xs h.1)

sum_nowhere :
    {A : Type 0} (id : A → ℕ) (k : ℕ) (a : ℤ) (xs : List A)
    → All (λ y. (id y == k) ≡ false) xs
    → sum_of (λ x. if id x == k then a else pos 0) xs ≡ pos 0
sum_nowhere id k a [] h = refl
sum_nowhere id k a (x ∷ xs) h = rw (h.0, sum_nowhere id k a xs h.1) (omega int_laws)

-- Of elements that are apart, at most one has the id.
pub sum_at_id :
    {A : Type 0} (id : A → ℕ) (k : ℕ) (a : ℤ) (xs : List A)
    → pos 0 ≤ℤ a
    → AreApart id xs
    → sum_of (λ x. if id x == k then a else pos 0) xs ≤ℤ a
sum_at_id id k a [] h p = omega arith
sum_at_id id k a (x ∷ xs) h p = elim (Bool-cases (id x == k)) [
  | inl same ↦
      let at_k : id x ≡ k = ground (arith, same) in
      let rest = sum_nowhere id k a xs (rw at_k at (p.0)) in rw (same, rest) (omega int_laws)
  | inr differs ↦ rw differs (omega (int_laws, sum_at_id id k a xs h p.1))
]

pub sum-update_where :
    {A : Type 0} (g : A → ℤ) (p : A → Bool) (f : A → A) (xs : List A)
    → sum_of g (update_where p f xs) ≡ sum_of (λ x. g (if p x then f x else x)) xs
sum-update_where g p f [] = refl
sum-update_where g p f (x ∷ xs) =
    ap (λ t. g (if p x then f x else x) +ℤ t) (sum-update_where g p f xs)

-- An update that keeps the ids keeps them apart.
pub AreApart-update_where :
    {A : Type 0} (id : A → ℕ) (p : A → Bool) (f : A → A) (xs : List A)
    → ((x : A) → id (f x) ≡ id x)
    → AreApart id xs
    → AreApart id (update_where p f xs)
AreApart-update_where id p f [] keep h = tt
AreApart-update_where {A} id p f (x ∷ xs) keep h =
    let same : (y : A) → id (if p y then f y else y) ≡ id y =
      λ y. elim (Bool-cases (p y)) [ inl e ↦ rw e (keep y) | inr e ↦ rw e refl ] in
    (
      rw (same x) (
          All-update_where (λ y. (id y == id x) ≡ false) (λ y. (id y == id x) ≡ false) p f
            (λ y differs. rw (same y) differs) xs h.0),
      AreApart-update_where id p f xs keep h.1,
    )

counted_once :
    (b c e : Bool) (a : ℤ)
    → pos 0 ≤ℤ a
    → (b ≡ true → (c || e) ≡ true)
    → (if b then a else pos 0) ≤ℤ (if c then a else pos 0) +ℤ (if e then a else pos 0)
counted_once false true true a h k = omega int_laws
counted_once false true false a h k = omega int_laws
counted_once false false true a h k = omega int_laws
counted_once false false false a h k = omega int_laws
counted_once true true true a h k = omega int_laws
counted_once true true false a h k = omega int_laws
counted_once true false true a h k = omega int_laws
counted_once true false false a h k = let never = k refl in cc

-- What the summary counts of a note, it takes off one of the deductions.
offset_in-le :
    (org next : ℕ) (d : Deduction) (ds : List Deduction) (n : SupplierNote) (o : Option (ℕ × ℤ))
    → (d.org == org) ≡ true
    → n.offset ≡ o
    → IsOffset next o
    → offset_in org (d ∷ ds) n ≤ℤ offset_of d n +ℤ offset_in org ds n
unfolding offset_in
offset_in-le org next d ds n none same e h = rw (e, offset_in) (omega int_laws)
offset_in-le org next d ds n (some (k, a)) same e h =
    let own : d.org ≡ org = ground (arith, same) in
    rw (e, own, offset_in)
      (counted_once
        (n.org == org && is_matched n.status && not n.deleted && has_id_among k (d ∷ ds))
        (n.org == org && not n.deleted && d.id == k)
        (n.org == org && is_matched n.status && not n.deleted && has_id_among k ds) a h.1
        (λ t. ground (arith, t)))

sum_add :
    {A : Type 0} (f g h : A → ℤ) (xs : List A)
    → All (λ x. f x ≤ℤ g x +ℤ h x) xs
    → sum_of f xs ≤ℤ sum_of g xs +ℤ sum_of h xs
sum_add f g h [] k = omega int_laws
sum_add f g h (x ∷ xs) k = omega (int_laws, k.0, sum_add f g h xs k.1)

none_in : (org : ℕ) (n : SupplierNote) → offset_in org [] n ≡ pos 0
unfolding offset_in
none_in org n = ground arith

sum_none : (org : ℕ) (ns : List SupplierNote) → sum_of (offset_in org []) ns ≡ pos 0
sum_none org [] = refl
sum_none org (n ∷ ns) = rw (none_in org n, sum_none org ns) (omega int_laws)

covered :
    (org next : ℕ) (ds : List Deduction) (ns : List SupplierNote)
    → All (λ d. (d.org == org) ≡ true) ds
    → All (IsNote next) ns
    → All (Covers ns) ds
    → sum_of (offset_in org ds) ns ≤ℤ sum_of (λ (d : Deduction). d.withheld) ds
covered org next [] ns o h c = rw (sum_none org ns) (omega arith)
covered org next (d ∷ ds) ns o h c = omega (
  int_laws,
  c.0,
  covered org next ds ns o.1 h c.1,
  sum_add (offset_in org (d ∷ ds)) (offset_of d) (offset_in org ds) ns
      (All-map _ _ (λ n k. offset_in-le org next d ds n n.offset o.0 refl k.1) ns h),
)

All-keep_where :
    {A : Type 0} (P : A → Type 0) (p : A → Bool) (xs : List A) → All P xs → All P (keep_where p xs)
All-keep_where P p [] h = tt
All-keep_where P p (x ∷ xs) h = elim (Bool-cases (p x)) [
  | inl e ↦ rw e (h.0, All-keep_where P p xs h.1)
  | inr e ↦ rw e (All-keep_where P p xs h.1)
]

kept_of_org :
    (org from to : ℕ) (ds : List Deduction)
    → All (λ d. (d.org == org) ≡ true) (keep_where (is_created_in org from to) ds)
kept_of_org org from to [] = tt
kept_of_org org from to (d ∷ ds) = elim (Bool-cases (is_created_in org from to d)) [
  | inl e ↦ rw e (ground (arith, e), kept_of_org org from to ds)
  | inr e ↦ rw e (kept_of_org org from to ds)
]

-- Where the offsets fit, what is left to remit of any organization and any time is not negative.
pub remittable_pos :
    (org from to : ℕ) (st : Taxes)
    → OffsetsFit st
    → pos 0 ≤ℤ (remittance_summary org from to st).remittable
unfolding remittance_summary
remittable_pos org from to st h = omega (
  int_laws,
  covered org st.next_id (keep_where (is_created_in org from to) st.deductions) st.notes
      (kept_of_org org from to st.deductions) h.notes
      (All-keep_where (Covers st.notes) _ st.deductions h.covers),
)
