-- ===== src/Taxes/Rates.antt =====
-- accounting/withholding-tax/withholding-tax.service.ts: the rates, `resolveRate` and `upsertRate`.
use biz360_sme_erp_e_tims.Base.{
  ℕ, suc, Bool, true, false, not, ◌&&◌, Option, none, some, List, [], ◌∷◌, ◌==◌, ltb, leb,
  keep_where, update_where, if◌then◌else◌, or_default,
}
use biz360_sme_erp_e_tims.Result.{Result, ok, err, not_found, rate_missing}
use biz360_sme_erp_e_tims.Taxes.{PaymentType, Residency, TaxRate, Taxes}

unfoldable pub payment_type_code : PaymentType → ℕ
payment_type_code PaymentType.professional_fees = 0
payment_type_code PaymentType.rent = 1
payment_type_code PaymentType.commission = 2
payment_type_code PaymentType.royalty = 3
payment_type_code PaymentType.dividend = 4
payment_type_code PaymentType.interest = 5
payment_type_code PaymentType.contractual_fees = 6
payment_type_code PaymentType.other_payment = 7

abbrev pub is_resident : Residency → Bool
is_resident Residency.resident = true
is_resident Residency.non_resident = false

abbrev pub same_residency : Residency → Residency → Bool
same_residency Residency.resident r = is_resident r
same_residency Residency.non_resident r = not (is_resident r)

abbrev pub is_org : Option ℕ → Option ℕ → Bool
is_org none none = true
is_org (some a) (some b) = a == b
is_org _ _ = false

-- The filter of `resolveRate`; `effectiveTo` is no part of it.
abbrev pub is_effective : Option ℕ → PaymentType → Residency → ℕ → TaxRate → Bool
is_effective org t r as_of x =
    is_org x.org org
    && payment_type_code x.payment_type == payment_type_code t
    && same_residency x.residency r
    && leb x.effective_from as_of

-- `orderBy: { effectiveFrom: 'desc' }`, the first one; of two from the same time, either.
unfoldable pub latest : List TaxRate → Option TaxRate
latest [] = none
latest (x ∷ xs) = elim (latest xs) [
  | none ↦ some x
  | some y ↦ if ltb x.effective_from y.effective_from then some y else some x
]

unfoldable pub latest_of : Option ℕ → PaymentType → Residency → ℕ → Taxes → Option TaxRate
unfolding latest
latest_of org t r as_of st = latest (keep_where (is_effective org t r as_of) st.rates)

unfoldable pub resolve_rate : ℕ → PaymentType → Residency → ℕ → Taxes → Result TaxRate
unfolding latest_of
resolve_rate org t r as_of st = elim (latest_of (some org) t r as_of st) [
  | some custom ↦ ok custom
  | none ↦ elim (latest_of none t r as_of st) [
    | some system ↦ ok system
    | none ↦ err (not_found rate_missing)
  ]
]

pub record RateDto : Type 0 where
  pub payment_type : PaymentType
  pub residency : Residency
  pub percent : ℕ
  pub defaults : Bool
  pub effective_from : Option ℕ
  pub effective_to : Option ℕ

abbrev pub is_rate_at : ℕ → RateDto → ℕ → TaxRate → Bool
is_rate_at org dto now x =
    is_org x.org (some org)
    && payment_type_code x.payment_type == payment_type_code dto.payment_type
    && same_residency x.residency dto.residency
    && elim dto.effective_from [
      | none ↦ leb x.effective_from now
      | some from ↦ x.effective_from == from
    ]

abbrev pub has_rate_id : ℕ → TaxRate → Bool
has_rate_id k x = x.id == k

abbrev pub patch_rate : RateDto → TaxRate → TaxRate
patch_rate dto x = record x {
  percent = dto.percent;
  effective_to = elim dto.effective_to [ none ↦ x.effective_to | some t ↦ some t ];
}

unfoldable pub insert_rate : ℕ → RateDto → Taxes → Taxes
insert_rate org dto st = record st {
  next_id = suc st.next_id;
  rates =
      record {
        id = st.next_id;
        org = some org;
        payment_type = dto.payment_type;
        residency = dto.residency;
        percent = dto.percent;
        effective_from = or_default dto.effective_from st.now;
        effective_to = dto.effective_to;
      }
      ∷ st.rates;
}

-- `upsertRate`
unfoldable pub upsert_rate : ℕ → RateDto → Taxes → Taxes
unfolding insert_rate latest
upsert_rate org dto st =
    if dto.defaults
    then elim (latest (keep_where (is_rate_at org dto st.now) st.rates)) [
      | some x ↦ record st { rates = update_where (has_rate_id x.id) (patch_rate dto) st.rates }
      | none ↦ insert_rate org dto st
    ]
    else insert_rate org dto st
