-- ===== src/Stock.antt =====
-- Stock on hand and the movements behind it: `adjustStock` of
-- modules/inventory/inventory.service.ts, and the stock loops of confirming and voiding in
-- modules/sales/sales.service.ts and modules/purchasing/purchasing.service.ts.
pub mod Agrees
pub mod Loops
use biz360_sme_erp_e_tims.Base.{
  ℕ, Bool, true, false, not, ◌&&◌, Option, none, some, List, [], ◌∷◌, ◌==◌, if◌then◌else◌, find,
  update_where, or_default, sum_of,
}
use biz360_sme_erp_e_tims.Base.Int.{ℤ, pos, ◌+ℤ◌, ◌-ℤ◌, ◌*ℤ◌, ltb_ℤ, ◌==ℤ◌, min_ℤ}
use biz360_sme_erp_e_tims.Result.{
  conflict, not_found, insufficient_stock, item_missing, zero_adjustment,
}
use biz360_sme_erp_e_tims.Money.Binary.{nearest, whole, plus, minus, times, over_100}
use biz360_sme_erp_e_tims.Money.{of_cents, round2}
use biz360_sme_erp_e_tims.Store.{
  Item, Movement, MovementType, InvoiceLine, Db, Tx, pure, ◌>>=◌, ◌>>◌, gets, modify, throw_if,
  or_throw, throw,
}

-- `where: { id, organizationId }`, less the rows that are deleted.
abbrev pub is_item : ℕ → ℕ → Item → Bool
is_item org id it = it.org == org && it.id == id && not it.deleted

abbrev pub add_stock : ℤ → Item → Item
add_stock delta it = record it { stock_on_hand = it.stock_on_hand +ℤ delta }

-- The update of an item's stock with the movement that records it.
unfoldable pub move_stock : ℕ → ℕ → ℤ → MovementType → Option ℕ → Db → Db
move_stock org id delta type ref db = record db {
  items = update_where (is_item org id) (add_stock delta) db.items;
  movements =
      record { org = org; item_id = id; quantity = delta; type = type; reference = ref }
      ∷ db.movements;
}

-- The item that a line moves: it is named, found, and its stock is tracked.
abbrev pub tracked : Option Item → Option Item
tracked none = none
tracked (some it) = if it.track_stock then some it else none

unfoldable pub item_of_line : ℕ → InvoiceLine → Db → Option Item
item_of_line org l db = elim l.item_id [
  | none ↦ none
  | some k ↦ tracked (find (is_item org k) db.items)
]

-- `round2(cogsTotal + qty * buyPrice)`: a quantity in thousandths at a price in cents.
unfoldable pub add_cost : ℤ → ℤ → Option ℤ → ℤ
add_cost cost qty buy =
    round2 (plus (of_cents cost) (times (nearest qty 1000) (of_cents (or_default buy (pos 0)))))

abbrev pub negated : ℤ → ℤ
negated a = pos 0 -ℤ a

-- A sold line leaves the stock, which must cover it; the result is the cost so far.
unfoldable pub sell_item : ℕ → ℕ → ℤ → ℤ → Option Item → Tx ℤ
sell_item org ref qty cost none db = pure cost db
sell_item org ref qty cost (some it) db =
    if ltb_ℤ it.stock_on_hand qty
    then throw (conflict insufficient_stock) db
    else pure (add_cost cost qty it.buy_price)
        (move_stock org it.id (negated qty) MovementType.sale_out (some ref) db)

unfoldable pub sell_lines : ℕ → ℕ → List InvoiceLine → ℤ → Tx ℤ
sell_lines org ref [] cost db = pure cost db
sell_lines org ref (l ∷ ls) cost db =
    (sell_item org ref l.quantity cost (item_of_line org l db) >>= sell_lines org ref ls) db

-- A line of a voided sale comes back.
unfoldable pub return_item : ℕ → ℕ → ℤ → ℤ → Option Item → Tx ℤ
return_item org ref qty cost none db = pure cost db
return_item org ref qty cost (some it) db =
    pure (add_cost cost qty it.buy_price) (move_stock org it.id qty MovementType.void (some ref) db)

unfoldable pub return_lines : ℕ → ℕ → List InvoiceLine → ℤ → Tx ℤ
return_lines org ref [] cost db = pure cost db
return_lines org ref (l ∷ ls) cost db =
    (return_item org ref l.quantity cost (item_of_line org l db) >>= return_lines org ref ls) db

-- A purchased line comes in.
unfoldable pub receive_item : ℕ → ℕ → ℤ → Option Item → Db → Db
receive_item org ref qty none db = db
receive_item org ref qty (some it) db =
    move_stock org it.id qty MovementType.purchase_in (some ref) db

unfoldable pub receive_lines : ℕ → ℕ → List InvoiceLine → Db → Db
receive_lines org ref [] db = db
receive_lines org ref (l ∷ ls) db =
    receive_lines org ref ls (receive_item org ref l.quantity (item_of_line org l db) db)

-- A line of a voided purchase goes out again, as far as the stock reaches.
unfoldable pub take_back_item : ℕ → ℕ → ℤ → Option Item → Db → Db
take_back_item org ref qty none db = db
take_back_item org ref qty (some it) db =
    move_stock org it.id (negated (min_ℤ qty it.stock_on_hand)) MovementType.void (some ref) db

unfoldable pub take_back_lines : ℕ → ℕ → List InvoiceLine → Db → Db
take_back_lines org ref [] db = db
take_back_lines org ref (l ∷ ls) db =
    take_back_lines org ref ls (take_back_item org ref l.quantity (item_of_line org l db) db)

-- `adjustStock`, of a change in thousandths. The row is set to the sum that was computed, which is
-- what adding the change gives.
unfoldable pub adjust_stock : ℕ → ℕ → ℤ → Tx (Unit {0})
adjust_stock org id delta = do
  throw_if (delta ==ℤ pos 0) (conflict zero_adjustment)
  found ← gets (λ db. find (is_item org id) db.items)
  it ← or_throw found (not_found item_missing)
  throw_if (ltb_ℤ (it.stock_on_hand +ℤ delta) (pos 0)) (conflict insufficient_stock)
  modify (move_stock org id delta MovementType.adjustment none)
