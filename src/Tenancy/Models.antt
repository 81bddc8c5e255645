-- ===== src/Tenancy/Models.antt =====
-- The models of prisma/schema.prisma, by what the extension does to a query of each, and the
-- operations of a query.
use biz360_sme_erp_e_tims.Base.{Bool, true, false}

pub data Model : Type 0 where
  organization organization_setting user refresh_token email_verification_token : Model
  password_reset_token audit_log outbox_event idempotency_key api_key item_category : Model
  unit_of_measure item party sale_invoice sale_invoice_line payment invoice_number_seq : Model
  stock_movement purchase_invoice purchase_invoice_line purchase_invoice_seq account : Model
  journal_entry journal_entry_line journal_entry_seq quotation quotation_line : Model
  quotation_number_seq purchase_order purchase_order_line purchase_order_number_seq : Model
  goods_receipt goods_receipt_line goods_receipt_number_seq credit_note : Model
  credit_note_line credit_note_number_seq bank_account bank_statement_line : Model
  bank_reconciliation notification supplier_etims_invoice supplier_etims_credit_note : Model
  supplier_etims_upload supplier_etims_upload_item expense_compliance_flag : Model
  withholding_tax_rate withholding_tax_deduction organization_tax_profile : Model
  tot_filing_period : Model

pub data Operation : Type 0 where
  find_first find_first_or_throw find_many find_unique find_unique_or_throw : Operation
  count aggregate group_by create create_many upsert : Operation
  update update_many delete delete_many : Operation

-- `isSoftDeleteModel`
unfoldable pub is_soft_delete_model : Model → Bool
is_soft_delete_model organization = true
is_soft_delete_model organization_setting = true
is_soft_delete_model user = true
is_soft_delete_model item_category = true
is_soft_delete_model unit_of_measure = true
is_soft_delete_model item = true
is_soft_delete_model party = true
is_soft_delete_model account = true
is_soft_delete_model bank_account = true
is_soft_delete_model _ = false

-- `isTenantModel`
unfoldable pub is_tenant_model : Model → Bool
is_tenant_model organization = false
is_tenant_model supplier_etims_invoice = false
is_tenant_model supplier_etims_credit_note = false
is_tenant_model supplier_etims_upload = false
is_tenant_model supplier_etims_upload_item = false
is_tenant_model expense_compliance_flag = false
is_tenant_model withholding_tax_rate = false
is_tenant_model withholding_tax_deduction = false
is_tenant_model organization_tax_profile = false
is_tenant_model tot_filing_period = false
is_tenant_model _ = true

-- `isAuditedModel`
unfoldable pub is_audited_model : Model → Bool
is_audited_model user = true
is_audited_model party = true
is_audited_model sale_invoice = true
is_audited_model payment = true
is_audited_model purchase_invoice = true
is_audited_model account = true
is_audited_model journal_entry = true
is_audited_model quotation = true
is_audited_model purchase_order = true
is_audited_model goods_receipt = true
is_audited_model credit_note = true
is_audited_model _ = false

-- The operations whose `where` leaves out deleted rows.
unfoldable pub hides_deleted : Operation → Bool
hides_deleted find_first = true
hides_deleted find_first_or_throw = true
hides_deleted find_many = true
hides_deleted count = true
hides_deleted aggregate = true
hides_deleted update = true
hides_deleted update_many = true
hides_deleted upsert = true
hides_deleted delete_many = true
hides_deleted _ = false

-- The operations whose `where` is kept to the tenant, beside `create` and `upsert`.
unfoldable pub is_scoped : Operation → Bool
is_scoped find_first = true
is_scoped find_first_or_throw = true
is_scoped find_many = true
is_scoped update = true
is_scoped update_many = true
is_scoped delete = true
is_scoped delete_many = true
is_scoped _ = false
