-- ===== src/Stock/Agrees.antt =====
-- About the stock on hand of an item, against the movements that are recorded for it.
use biz360_sme_erp_e_tims.Base.{
  ℕ, false, ◌&&◌, ◌≡◌, refl, Option, List, ◌∷◌, ◌==◌, if◌then◌else◌, sum_of, All, All-update_where,
  arith,
}
use biz360_sme_erp_e_tims.Base.Int.{ℤ, pos, +ℤ_comm, zero-+ℤ}
use biz360_sme_erp_e_tims.Store.{Item, Movement, MovementType, Db}
use biz360_sme_erp_e_tims.Stock.{is_item, add_stock, move_stock}

-- What a movement adds to the stock of an item of an organization.
abbrev pub moves_item : ℕ → ℕ → Movement → ℤ
moves_item org id m = if m.org == org && m.item_id == id then m.quantity else pos 0

abbrev pub moved : ℕ → ℕ → List Movement → ℤ
moved org id = sum_of (moves_item org id)

-- The stock of an item that is not deleted is the sum of its movements.
abbrev pub Agrees : List Movement → Item → Type 0
Agrees ms it = it.deleted ≡ false → it.stock_on_hand ≡ moved it.org it.id ms

abbrev pub StockAgrees : Db → Type 0
StockAgrees db = All (Agrees db.movements) db.items

Agrees-add_stock :
    (org id : ℕ) (delta : ℤ) (m : Movement) (ms : List Movement) (it : Item)
    → m.org ≡ org
    → m.item_id ≡ id
    → m.quantity ≡ delta
    → Agrees ms it
    → Agrees (m ∷ ms) (if is_item org id it then add_stock delta it else it)
Agrees-add_stock org id delta m ms it o i q h d =
    ground (arith, h, +ℤ_comm it.stock_on_hand delta, zero-+ℤ (moved it.org it.id ms))

-- Where the stock of every item that is not deleted is the sum of its movements, it is so again
-- after a movement of any quantity at any item of any organization.
pub move_stock-StockAgrees :
    (org id : ℕ) (delta : ℤ) (t : MovementType) (ref : Option ℕ) (db : Db)
    → StockAgrees db
    → StockAgrees (move_stock org id delta t ref db)
unfolding move_stock
move_stock-StockAgrees org id delta t ref db h =
    All-update_where _ _ (is_item org id) (add_stock delta)
      (λ it.
        Agrees-add_stock org id delta
          (record { org = org; item_id = id; quantity = delta; type = t; reference = ref })
          db.movements it refl refl refl)
      db.items h
