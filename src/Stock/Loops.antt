-- ===== src/Stock/Loops.antt =====
-- What every movement of stock keeps, the loops over the lines of a document keep.
use biz360_sme_erp_e_tims.Base.{ℕ, Option, none, some, List, [], ◌∷◌, Bool-cases, inl, inr}
use biz360_sme_erp_e_tims.Base.Int.{ℤ, ltb_ℤ}
use biz360_sme_erp_e_tims.Store.{Item, MovementType, InvoiceLine, Db, throw, pure}
use biz360_sme_erp_e_tims.Store.Keeps.{Preserves, Keeps, Keeps-bind}
use biz360_sme_erp_e_tims.Stock.{
  move_stock, item_of_line, sell_item, sell_lines, return_item, return_lines, receive_item,
  receive_lines, take_back_item, take_back_lines,
}

module _ (P : Db → Type 0)
    (move : (org id : ℕ) (delta : ℤ) (t : MovementType) (ref : Option ℕ) (db : Db)
      → P db
      → P (move_stock org id delta t ref db)) where
  sell_item-Preserves :
      (org ref : ℕ) (qty cost : ℤ) (found : Option Item)
      → Preserves P (sell_item org ref qty cost found)
  unfolding sell_item throw pure
  sell_item-Preserves org ref qty cost none db h = h
  sell_item-Preserves org ref qty cost (some it) db h =
      elim (Bool-cases (ltb_ℤ it.stock_on_hand qty)) [
        | inl short ↦ rw (short, sell_item) tt
        | inr enough ↦ rw (enough, sell_item) (move org it.id _ _ _ db h)
      ]

  pub sell_lines-Keeps :
      (org ref : ℕ) (ls : List InvoiceLine) (cost : ℤ) → Keeps P (sell_lines org ref ls cost)
  unfolding sell_lines pure
  sell_lines-Keeps org ref [] cost = record { run = λ db h. h }
  sell_lines-Keeps org ref (l ∷ ls) cost = record {
    run = λ db h.
        (Keeps-bind P {m = sell_item org ref l.quantity cost (item_of_line org l db)}
            {f = sell_lines org ref ls}
            (record { run = sell_item-Preserves org ref l.quantity cost (item_of_line org l db) })
            (sell_lines-Keeps org ref ls)).run
          db h;
  }

  return_item-Preserves :
      (org ref : ℕ) (qty cost : ℤ) (found : Option Item)
      → Preserves P (return_item org ref qty cost found)
  unfolding return_item pure
  return_item-Preserves org ref qty cost none db h = h
  return_item-Preserves org ref qty cost (some it) db h = move org it.id qty _ _ db h

  pub return_lines-Keeps :
      (org ref : ℕ) (ls : List InvoiceLine) (cost : ℤ) → Keeps P (return_lines org ref ls cost)
  unfolding return_lines pure
  return_lines-Keeps org ref [] cost = record { run = λ db h. h }
  return_lines-Keeps org ref (l ∷ ls) cost = record {
    run = λ db h.
        (Keeps-bind P {m = return_item org ref l.quantity cost (item_of_line org l db)}
            {f = return_lines org ref ls}
            (record { run = return_item-Preserves org ref l.quantity cost (item_of_line org l db) })
            (return_lines-Keeps org ref ls)).run
          db h;
  }

  receive_item-keeps :
      (org ref : ℕ) (qty : ℤ) (found : Option Item) (db : Db)
      → P db
      → P (receive_item org ref qty found db)
  unfolding receive_item
  receive_item-keeps org ref qty none db h = h
  receive_item-keeps org ref qty (some it) db h = move org it.id qty _ _ db h

  pub receive_lines-keeps :
      (org ref : ℕ) (ls : List InvoiceLine) (db : Db) → P db → P (receive_lines org ref ls db)
  unfolding receive_lines
  receive_lines-keeps org ref [] db h = h
  receive_lines-keeps org ref (l ∷ ls) db h =
      receive_lines-keeps org ref ls (receive_item org ref l.quantity (item_of_line org l db) db)
        (receive_item-keeps org ref l.quantity (item_of_line org l db) db h)

  take_back_item-keeps :
      (org ref : ℕ) (qty : ℤ) (found : Option Item) (db : Db)
      → P db
      → P (take_back_item org ref qty found db)
  unfolding take_back_item
  take_back_item-keeps org ref qty none db h = h
  take_back_item-keeps org ref qty (some it) db h = move org it.id _ _ _ db h

  pub take_back_lines-keeps :
      (org ref : ℕ) (ls : List InvoiceLine) (db : Db) → P db → P (take_back_lines org ref ls db)
  unfolding take_back_lines
  take_back_lines-keeps org ref [] db h = h
  take_back_lines-keeps org ref (l ∷ ls) db h =
      take_back_lines-keeps org ref ls
        (take_back_item org ref l.quantity (item_of_line org l db) db)
        (take_back_item-keeps org ref l.quantity (item_of_line org l db) db h)
