-- ===== src/Result.antt =====
-- The exceptions that the services throw, and a computation that may throw one. The classes are
-- those of Nest's HTTP exceptions; the texts of the messages are left out, and the reason stands
-- for the `throw` that was reached.
use biz360_sme_erp_e_tims.Base.{◌≡◌, refl, ◌⊎◌, inl, inr}

pub data Reason : Type 0 where
  party_missing item_missing invoice_missing purchase_missing account_missing parent_missing :
      Reason
  entry_missing in_flight : Reason
  wrong_party_type wrong_status credit_limit insufficient_stock concurrent_change : Reason
  amount_not_positive negative_line not_one_side unbalanced already_reversed : Reason
  code_taken own_parent has_activity not_created zero_adjustment : Reason
  note_missing wrong_party quotation_missing expired order_missing receipt_missing : Reason
  line_missing bad_quantity over_receipt : Reason
  bank_account_missing bank_line_missing no_amount two_amounts bad_period reconciled_before : Reason
  payment_missing rate_missing not_a_supplier deduction_missing supplier_missing number_taken :
      Reason
  other_supplier already_matched already_offset : Reason

-- Of the classes of exceptions, `range_error` is the plain `RangeError` that `toAmount` throws.
pub data Error : Type 0 where
  not_found conflict bad_request : Reason → Error
  range_error : Error

pub data Result {ℓ} (A : Type ℓ) : Type ℓ where
  err : Error → Result A
  ok : A → Result A

infixl 5 ◌>>=◌
-- The first error ends the chain.
abbrev pub ◌>>=◌ : {A B : Type 0} → Result A → (A → Result B) → Result B
err x >>= next = err x
ok v >>= next = next v

-- What a success satisfies; an error satisfies it with nothing to show.
abbrev pub Ensures {ℓ κ} : {A : Type ℓ} → (A → Type κ) → Result A → Type κ
Ensures P (ok a) = P a
Ensures P (err e) = Unit

pub Result-cases {ℓ} :
    {A : Type ℓ} (r : Result A) → ((a : A) × (r ≡ ok a)) ⊎ ((e : Error) × (r ≡ err e))
Result-cases (ok a) = inl (a, refl)
Result-cases (err e) = inr (e, refl)

pub Ensures-map {ℓ κ} :
    {A : Type ℓ} (P Q : A → Type κ)
    → ((a : A) → P a → Q a)
    → (r : Result A) → Ensures P r
    → Ensures Q r
Ensures-map P Q f (ok a) h = f a h
Ensures-map P Q f (err e) h = tt
