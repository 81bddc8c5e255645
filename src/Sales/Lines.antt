-- ===== src/Sales/Lines.antt =====
-- About reading the lines of a new document, which writes nothing.
use biz360_sme_erp_e_tims.Base.{ℕ, List}
use biz360_sme_erp_e_tims.Document.{LineDto}
use biz360_sme_erp_e_tims.Store.{Db}
use biz360_sme_erp_e_tims.Store.Keeps.{Keeps, keeps_rules}
use biz360_sme_erp_e_tims.Sales.Draft.{new_lines}

pub new_lines-Keeps :
    (P : Db → Type 0) (org : ℕ) (dtos : List LineDto) → Keeps P (new_lines org dtos)
unfolding new_lines
new_lines-Keeps P org dtos = search keeps_rules depth 15
