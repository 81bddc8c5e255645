-- ===== src/Quotations/Requests.antt =====
-- The requests that change quotations, as modules/quotations/quotations.controller.ts passes them
-- on to the service.
use biz360_sme_erp_e_tims.Base.{ℕ, Option, List, [], ◌∷◌}
use biz360_sme_erp_e_tims.Document.{LineDto}
use biz360_sme_erp_e_tims.Store.{Db, commit}
use biz360_sme_erp_e_tims.Quotations.{
  create_quote, update_quote, send_quote, accept_quote, cancel_quote, convert_quote,
}

pub data Request : Type 0 where
  create : ℕ → Option ℕ → Option ℕ → List LineDto → Request
  update : ℕ → Option ℕ → Option (Option ℕ) → Request
  send accept cancel convert : ℕ → Request

-- The database after the request of an organization.
unfoldable pub serve : ℕ → Request → Db → Db
serve org (create party date until lines) = commit (create_quote org party date until lines)
serve org (update id date until) = commit (update_quote org id date until)
serve org (send id) = λ db. (send_quote org id db).1
serve org (accept id) = λ db. (accept_quote org id db).1
serve org (cancel id) = commit (cancel_quote org id)
serve org (convert id) = λ db. (convert_quote org id db).1

unfoldable pub serve_all : List (ℕ × Request) → Db → Db
serve_all [] db = db
serve_all ((org, r) ∷ rs) db = serve_all rs (serve org r db)
