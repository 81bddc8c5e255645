-- ===== src/Orders/Lines.antt =====
-- The lines and totals of modules/purchase-orders/purchase-orders.service.ts. A request's quantity
-- has at most three places, as `DECIMAL_3DP` of its dto wants, and is a number of thousandths.
use biz360_sme_erp_e_tims.Base.{
  ℕ, suc, Option, none, some, List, [], ◌∷◌, if◌then◌else◌, find, or_default, map,
}
use biz360_sme_erp_e_tims.Base.Int.{ℤ, pos}
use biz360_sme_erp_e_tims.Result.{Result, ok, err, not_found, item_missing, ◌>>=◌}
use biz360_sme_erp_e_tims.Money.Binary.{nearest, whole, plus, minus, times, over_100}
use biz360_sme_erp_e_tims.Money.{JsNumber, finite, of_cents, round2, to_amount, sum}
use biz360_sme_erp_e_tims.Document.{Priced, Totals}
use biz360_sme_erp_e_tims.Store.{Item, OrderedLine, OrderLine}
use biz360_sme_erp_e_tims.Stock.{is_item}
use biz360_sme_erp_e_tims.Sales.Draft.{priced, named_item}

pub record OrderLineDto : Type 0 where
  pub item_id : Option ℕ
  pub quantity : ℤ
  pub unit_price : JsNumber
  pub tax_rate : Option JsNumber
  pub discount_pct : Option JsNumber
  pub line_discount : Option JsNumber

-- The amounts that follow from the five figures of a line, of which the quantity is not rounded.
unfoldable pub ordered_line : Option ℕ → ℤ → ℤ → ℤ → ℤ → ℤ → OrderedLine
ordered_line item qty price rate pct discount =
    let amount = round2 (times (nearest qty 1000) (of_cents price)) in
    let kept = minus (whole 1) (over_100 (of_cents pct)) in
    let after_pct = round2 (times (of_cents amount) kept) in
    let total = round2 (minus (of_cents after_pct) (of_cents discount)) in
    record {
      item_id = item;
      quantity = qty;
      unit_price = price;
      tax_rate = rate;
      discount_pct = pct;
      line_discount = discount;
      line_amount = amount;
      line_total = total;
      tax_amount = round2 (over_100 (times (of_cents total) (of_cents rate)));
    }

unfoldable pub compute_order_line : OrderLineDto → Priced → JsNumber → Result OrderedLine
compute_order_line dto item org_rate = do
  price ← to_amount dto.unit_price
  rate ← to_amount (or_default dto.tax_rate (if item.taxed then org_rate else finite (pos 0) 0))
  pct ← to_amount (or_default dto.discount_pct (finite (pos 0) 0))
  discount ← to_amount (or_default dto.line_discount (finite (pos 0) 0))
  ok (ordered_line dto.item_id dto.quantity price rate pct discount)

-- Every item that a line names is there.
unfoldable pub check_order_items : List Item → ℕ → List OrderLineDto → Result (Unit {0})
check_order_items items org [] = ok tt
check_order_items items org (l ∷ ls) = elim l.item_id [
  | none ↦ check_order_items items org ls
  | some k ↦ elim (find (is_item org k) items) [
    | none ↦ err (not_found item_missing)
    | some _ ↦ check_order_items items org ls
  ]
]

unfoldable pub compute_order_lines :
    List Item → ℕ → JsNumber → List OrderLineDto → Result (List OrderedLine)
compute_order_lines items org rate [] = ok []
compute_order_lines items org rate (l ∷ ls) =
    elim (compute_order_line l (priced (named_item items org l.item_id)) rate) [
      | err e ↦ err e
      | ok c ↦ elim (compute_order_lines items org rate ls) [ err e ↦ err e | ok cs ↦ ok (c ∷ cs) ]
    ]

unfoldable pub order_totals : List OrderedLine → Totals
order_totals lines =
    let line_totals = sum (map (λ (l : OrderedLine). l.line_total) lines) in
    let subtotal = sum (map (λ (l : OrderedLine). l.line_amount) lines) in
    let tax_total = sum (map (λ (l : OrderedLine). l.tax_amount) lines) in
    record {
      subtotal = subtotal;
      discount_total = round2 (minus (of_cents subtotal) (of_cents line_totals));
      tax_total = tax_total;
      total = round2 (plus (of_cents line_totals) (of_cents tax_total));
    }

-- The rows of the lines, under the ids from `k` on. Nothing is received of them.
abbrev pub line_rows : ℕ → List OrderedLine → List OrderLine
line_rows k [] = []
line_rows k (l ∷ ls) = record { id = k; received = pos 0; ordered = l } ∷ line_rows (suc k) ls
