-- ===== src/Base/Lists.antt =====
-- Lists over the native numbers, sums of integers, and a predicate on every element.
use Prim.Native.Nat.{ℕ, suc, ◌+◌}
use mathlib.Core.Path.{◌≡◌, refl}
use mathlib.Core.Bool.{Bool, true, false}
use mathlib.Core.Logic.{inl, inr}
use mathlib.Core.Option.{Option, none, some, some-injective}
use mathlib.Core.List.{List, [], ◌∷◌, ◌++◌, map}
use native.Mathlib.Omega.{arith}
use biz360_sme_erp_e_tims.Base.Tests.{if◌then◌else◌, Bool-cases}
use biz360_sme_erp_e_tims.Base.Int.{ℤ, pos, ◌+ℤ◌, int_laws}

module _ {ℓ} {A : Type ℓ} where
  abbrev pub length : List A → ℕ
  length [] = 0
  length (x ∷ xs) = suc (length xs)

  -- The first element that passes a test.
  abbrev pub find : (A → Bool) → List A → Option A
  find p [] = none
  find p (x ∷ xs) = if p x then some x else find p xs

  -- Every element that passes the test is changed.
  abbrev pub update_where : (A → Bool) → (A → A) → List A → List A
  update_where p f [] = []
  update_where p f (x ∷ xs) = (if p x then f x else x) ∷ update_where p f xs

  -- The elements that pass the test.
  abbrev pub keep_where : (A → Bool) → List A → List A
  keep_where p [] = []
  keep_where p (x ∷ xs) = let rest = keep_where p xs in if p x then x ∷ rest else rest

  abbrev pub count_where : (A → Bool) → List A → ℕ
  count_where p [] = 0
  count_where p (x ∷ xs) = (if p x then 1 else 0) + count_where p xs

  -- The sum of a value over the elements.
  abbrev pub sum_of : (A → ℤ) → List A → ℤ
  sum_of f [] = pos 0
  sum_of f (x ∷ xs) = f x +ℤ sum_of f xs

  abbrev pub All {κ} : (A → Type κ) → List A → Type κ
  All P [] = Unit
  All P (x ∷ xs) = P x × All P xs

  pub All-append {κ} : (P : A → Type κ) (xs ys : List A) → All P xs → All P ys → All P (xs ++ ys)
  All-append P [] ys hx hy = hy
  All-append P (x ∷ xs) ys hx hy = (hx.0, All-append P xs ys hx.1 hy)

  pub All-map {κ} : (P Q : A → Type κ) → ((x : A) → P x → Q x) → (xs : List A) → All P xs → All Q xs
  All-map P Q f [] h = tt
  All-map P Q f (x ∷ xs) h = (f x h.0, All-map P Q f xs h.1)

  -- What the function gives on each element it gives on all of them.
  pub All-over_map {κ} :
      (P Q : A → Type κ) (f : A → A)
      → ((x : A) → P x → Q (f x))
      → (xs : List A) → All P xs
      → All Q (map f xs)
  All-over_map P Q f k [] h = tt
  All-over_map P Q f k (x ∷ xs) h = (k x h.0, All-over_map P Q f k xs h.1)

  -- What the change keeps on each element it keeps on all of them.
  pub All-update_where {κ} :
      (P Q : A → Type κ) (p : A → Bool) (f : A → A)
      → ((x : A) → P x → Q (if p x then f x else x))
      → (xs : List A) → All P xs
      → All Q (update_where p f xs)
  All-update_where P Q p f k [] h = tt
  All-update_where P Q p f k (x ∷ xs) h = (k x h.0, All-update_where P Q p f k xs h.1)

  pub sum_of-append :
      (f : A → ℤ) (xs ys : List A) → sum_of f (xs ++ ys) ≡ sum_of f xs +ℤ sum_of f ys
  sum_of-append f [] ys = omega int_laws
  sum_of-append f (x ∷ xs) ys = rw (sum_of-append f xs ys) (omega int_laws)

  pub All-find {κ} :
      (P : A → Type κ) (p : A → Bool) {x : A} (xs : List A)
      → All P xs
      → find p xs ≡ some x
      → P x × (p x ≡ true)
  All-find P p [] h e = cc
  All-find P p {x} (y ∷ ys) h e = elim (Bool-cases (p y)) [
    | inl t ↦ let same : y ≡ x = some-injective _ _ (rw (t, find) at e) in rw (← same) (h.0, t)
    | inr t ↦ All-find P p ys h.1 (rw t at e)
  ]

pub find_passes {ℓ} :
    {A : Type ℓ} (p : A → Bool) {x : A} (xs : List A) → find p xs ≡ some x → p x ≡ true
find_passes p [] e = cc
find_passes p (y ∷ ys) e = elim (Bool-cases (p y)) [
  | inl t ↦ rw (← some-injective _ _ (rw (t, find) at e)) t
  | inr t ↦ find_passes p ys (rw t at e)
]

-- The row that a key finds, after an update that a sharper test selects and that keeps the key.
pub find-update_where {ℓ} :
    {A : Type ℓ} (key p : A → Bool) (f : A → A) (x : A) (xs : List A)
    → ((y : A) → p y ≡ true → key y ≡ true)
    → ((y : A) → p y ≡ true → key (f y) ≡ true)
    → p x ≡ true
    → find key xs ≡ some x
    → find key (update_where p f xs) ≡ some (f x)
find-update_where key p f x [] sharp keep hit e = cc
find-update_where key p f x (y ∷ ys) sharp keep hit e = elim (Bool-cases (key y)) [
  | inl found ↦
      let same : y ≡ x = some-injective _ _ (rw (found, find) at e) in
      let chosen : p y ≡ true = rw same hit in rw (chosen, keep y chosen, same)
  | inr other ↦
      let skipped : p y ≡ false = elim (Bool-cases (p y)) [
        | inl chosen ↦ absurd (ground (arith, sharp y chosen))
        | inr skipped ↦ skipped
      ] in
      rw (skipped, other) (find-update_where key p f x ys sharp keep hit (rw other at e))
]

-- The row that a key finds, after an update that keeps every key.
pub find-update_any {ℓ} :
    {A : Type ℓ} (key p : A → Bool) (f : A → A)
    → ((y : A) → key (f y) ≡ key y)
    → (x : A) (xs : List A) → find key xs ≡ some x
    → find key (update_where p f xs) ≡ some (if p x then f x else x)
find-update_any key p f keep x [] e = cc
find-update_any key p f keep x (y ∷ ys) e = elim (Bool-cases (key y)) [
  | inl found ↦
      let same : y ≡ x = some-injective _ _ (rw (found, find) at e) in
      rw same (elim (Bool-cases (p x)) [
        | inl t ↦ rw (t, keep x, ← same, found) refl
        | inr t ↦ rw (t, ← same, found) refl
      ])
  | inr other ↦
      let rest = find-update_any key p f keep x ys (rw other at e) in
      elim (Bool-cases (p y)) [ inl t ↦ rw (t, keep y, other) rest | inr t ↦ rw (t, other) rest ]
]

-- An update that takes every row out of its own test leaves none for it.
pub count_where-update {ℓ} :
    {A : Type ℓ} (p : A → Bool) (f : A → A)
    → ((y : A) → p y ≡ true → p (f y) ≡ false)
    → (xs : List A) → count_where p (update_where p f xs) ≡ 0
count_where-update p f away [] = refl
count_where-update p f away (y ∷ ys) = elim (Bool-cases (p y)) [
  | inl chosen ↦ rw (chosen, away y chosen) (omega (arith, count_where-update p f away ys))
  | inr other ↦ rw (other, other) (omega (arith, count_where-update p f away ys))
]

pub sum_of-map {ℓ κ} :
    {A : Type ℓ} {B : Type κ} (g : B → ℤ) (f : A → B) (xs : List A)
    → sum_of g (map f xs) ≡ sum_of (λ x. g (f x)) xs
sum_of-map g f [] = refl
sum_of-map g f (x ∷ xs) = rw (sum_of-map g f xs)

-- The row that a key finds among rows that were all changed, with their keys kept.
pub find-map {ℓ} :
    {A : Type ℓ} (key : A → Bool) (f : A → A)
    → ((y : A) → key (f y) ≡ key y)
    → (x : A) (xs : List A) → find key xs ≡ some x
    → find key (map f xs) ≡ some (f x)
find-map key f keep x [] e = cc
find-map key f keep x (y ∷ ys) e = elim (Bool-cases (key y)) [
  | inl found ↦
      let same : y ≡ x = some-injective _ _ (rw (found, find) at e) in rw (keep y, found, same) refl
  | inr other ↦ rw (keep y, other) (find-map key f keep x ys (rw other at e))
]

-- The row that a key finds stays where only rows that fail a test leave, and it passes.
pub find-keep_where {ℓ} :
    {A : Type ℓ} (key p : A → Bool) (x : A) (xs : List A)
    → find key xs ≡ some x
    → p x ≡ true
    → find key (keep_where p xs) ≡ some x
find-keep_where key p x [] e t = cc
find-keep_where key p x (y ∷ ys) e t = elim (Bool-cases (key y)) [
  | inl found ↦
      let same : y ≡ x = some-injective _ _ (rw (found, find) at e) in
      rw (same, t, ← same, found) refl
  | inr other ↦
      let rest = find-keep_where key p x ys (rw other at e) t in
      elim (Bool-cases (p y)) [ inl kept ↦ rw (kept, other) rest | inr gone ↦ rw gone rest ]
]
