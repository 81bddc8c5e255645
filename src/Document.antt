-- ===== src/Document.antt =====
-- The lines and totals of an invoice: `computeLine` and the sums of `createDraft`, whose text
-- modules/sales/sales.service.ts and modules/purchasing/purchasing.service.ts share.
-- A line's quantity is in hundredths here, as `toAmount` leaves it.
pub mod Sums
use biz360_sme_erp_e_tims.Base.{ℕ, Bool, Option, none, some, List, map, or_default, if◌then◌else◌}
use biz360_sme_erp_e_tims.Base.Int.{ℤ, pos}
use biz360_sme_erp_e_tims.Result.{Result, ok, ◌>>=◌}
use biz360_sme_erp_e_tims.Money.Binary.{whole, plus, minus, times, over_100}
use biz360_sme_erp_e_tims.Money.{JsNumber, finite, of_cents, round2, to_amount, sum}

-- A line as the client sends it; a field that is left out is `none`.
pub record LineDto : Type 0 where
  pub item_id : Option ℕ
  pub quantity : Option JsNumber
  pub unit_price : Option JsNumber
  pub tax_rate : Option JsNumber
  pub discount_pct : Option JsNumber
  pub line_discount : Option JsNumber

-- What the computation reads of the item: its price, and whether it has a tax code.
pub record Priced : Type 0 where
  pub sell_price : Option ℤ
  pub taxed : Bool

pub record ComputedLine : Type 0 where
  pub item_id : Option ℕ
  pub quantity : ℤ
  pub unit_price : ℤ
  pub tax_rate : ℤ
  pub discount_pct : ℤ
  pub line_discount : ℤ
  pub line_amount : ℤ
  pub line_total : ℤ
  pub tax_amount : ℤ

-- `item.sellPrice ?? '0'`, a decimal of two places.
abbrev pub price_of : Option ℤ → JsNumber
price_of none = finite (pos 0) 0
price_of (some c) = finite c 2

-- The amounts that follow from the five figures of a line.
unfoldable pub priced_line : Option ℕ → ℤ → ℤ → ℤ → ℤ → ℤ → ComputedLine
priced_line item qty price rate pct discount =
    let amount = round2 (times (of_cents qty) (of_cents price)) in
    let kept = minus (whole 1) (over_100 (of_cents pct)) in
    let after_pct = round2 (times (of_cents amount) kept) in
    let total = round2 (minus (of_cents after_pct) (of_cents discount)) in
    record {
      item_id = item;
      quantity = qty;
      unit_price = price;
      tax_rate = rate;
      discount_pct = pct;
      line_discount = discount;
      line_amount = amount;
      line_total = total;
      tax_amount = round2 (over_100 (times (of_cents total) (of_cents rate)));
    }

unfoldable pub compute_line : LineDto → Priced → JsNumber → Result ComputedLine
compute_line dto item org_rate = do
  qty ← to_amount (or_default dto.quantity (finite (pos 1) 0))
  price ← to_amount (or_default dto.unit_price (price_of item.sell_price))
  rate ← to_amount (or_default dto.tax_rate (if item.taxed then org_rate else finite (pos 0) 0))
  pct ← to_amount (or_default dto.discount_pct (finite (pos 0) 0))
  discount ← to_amount (or_default dto.line_discount (finite (pos 0) 0))
  ok (priced_line dto.item_id qty price rate pct discount)

pub record Totals : Type 0 where
  pub subtotal : ℤ
  pub discount_total : ℤ
  pub tax_total : ℤ
  pub total : ℤ

unfoldable pub totals : List ComputedLine → Totals
totals lines =
    let line_totals = sum (map (λ (l : ComputedLine). l.line_total) lines) in
    let subtotal = sum (map (λ (l : ComputedLine). l.line_amount) lines) in
    let tax_total = sum (map (λ (l : ComputedLine). l.tax_amount) lines) in
    record {
      subtotal = subtotal;
      discount_total = round2 (minus (of_cents subtotal) (of_cents line_totals));
      tax_total = tax_total;
      total = round2 (plus (of_cents line_totals) (of_cents tax_total));
    }
