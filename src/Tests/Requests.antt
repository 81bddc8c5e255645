-- ===== src/Tests/Requests.antt =====
-- A sequence of requests of the shop.
use biz360_sme_erp_e_tims.Base.{ℕ, refl, none, List, [], ◌∷◌, arith}
use biz360_sme_erp_e_tims.Base.Int.{pos}
use biz360_sme_erp_e_tims.Money.{finite}
use biz360_sme_erp_e_tims.Consistency.{IsConsistent}
use biz360_sme_erp_e_tims.System.{
  Operation, draft_sale, confirm_sale, void_sale, pay_sale, draft_purchase, receive_purchase,
  perform_all,
}
use biz360_sme_erp_e_tims.System.Safety.{perform_all-IsConsistent}
use biz360_sme_erp_e_tims.Tests.Shop.{shop, line_of_flour}

-- Ten are bought, three are sold and paid in part, and the sale is voided.
abbrev requests : List (ℕ × Operation)
requests =
    (1, draft_purchase 21 none (line_of_flour 10 ∷ []))
    ∷ (1, receive_purchase 100)
    ∷ (1, draft_sale 20 none (line_of_flour 3 ∷ []))
    ∷ (1, confirm_sale 102)
    ∷ (1, pay_sale 102 (finite (pos 100) 0))
    ∷ (1, void_sale 102)
    ∷ []

shop-IsConsistent : IsConsistent shop
shop-IsConsistent = record {
  books = tt;
  once = λ org k t m. omega arith;
  numbered = record { under = tt; distinct = tt };
  stock = (λ live. refl, tt);
}

perform_all-IsConsistent_example : IsConsistent (perform_all requests shop)
perform_all-IsConsistent_example = perform_all-IsConsistent requests shop shop-IsConsistent
