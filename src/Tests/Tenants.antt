-- ===== src/Tests/Tenants.antt =====
-- Queries of a request of organization 3, against a filter that compares texts and nulls.
use biz360_sme_erp_e_tims.Base.{
  ℕ, Bool, true, false, ◌&&◌, ◌≡◌, refl, sym, ap, ◌∙◌, none, some, ◌==◌, arith,
}
use biz360_sme_erp_e_tims.Tenancy.Models.{
  Model, Operation, is_soft_delete_model, is_tenant_model, is_audited_model, hides_deleted,
  is_scoped,
}
use biz360_sme_erp_e_tims.Tenancy.Objects.{
  organization_id, deleted_at, other, Value, undefined, null, text, condition, Object, empty,
  coalesce, is_truthy, with_key, is_key,
}
use biz360_sme_erp_e_tims.Tenancy.Compose.{
  Args, Scope, compose_query_args, tenant_of, hide_deleted, isolate, audit,
}
use biz360_sme_erp_e_tims.Tenancy.Rows.{Filters, rows_of_tenant, rows_not_deleted}

-- A key of a filter that is a text or null must stand in the row.
agrees : Value → Value → Bool
agrees (text n) (text k) = n == k
agrees (text n) _ = false
agrees null null = true
agrees null _ = false
agrees _ v = true

matches : Object → Object → Bool
unfolding agrees
matches w row =
    agrees (w organization_id) (row organization_id) && agrees (w deleted_at) (row deleted_at)

agrees_text : (n : ℕ) (v : Value) → agrees (text n) v ≡ true → v ≡ text n
unfolding agrees
agrees_text n (text k) h = ground (arith, h)
agrees_text n undefined h = cc
agrees_text n null h = cc
agrees_text n (condition k) h = cc

agrees_null : (v : Value) → agrees null v ≡ true → v ≡ null
unfolding agrees
agrees_null null h = refl
agrees_null undefined h = cc
agrees_null (text k) h = cc
agrees_null (condition k) h = cc

both : (a b : Bool) → (a && b) ≡ true → (a ≡ true) × (b ≡ true)
both true b h = (refl, h)
both false b h = cc

matches-Filters : Filters matches
unfolding matches
matches-Filters = record {
  at_organization = λ w row n e h.
      agrees_text n (row organization_id)
        (ap (λ v. agrees v (row organization_id)) (sym e) ∙ (both _ _ h).0);
  at_deletion = λ w row e h.
      agrees_null (row deleted_at) (ap (λ v. agrees v (row deleted_at)) (sym e) ∙ (both _ _ h).1);
}

abbrev scope : Scope
scope = record { org = text 3; user = text 8 }

-- `findMany({ where: { id: 40 } })`
abbrev lookup : Args
lookup = record {
  where_clause = some (with_key (other 1) (text 40) empty);
  payload = none;
  creation = none;
}

-- An item of organization 3 that is not deleted.
abbrev item : Object
item =
    with_key organization_id (text 3)
      (with_key deleted_at null (with_key (other 1) (text 40) empty))

rows_of_tenant_example : item organization_id ≡ text 3
unfolding compose_query_args hide_deleted isolate audit tenant_of coalesce is_truthy with_key is_key
    is_soft_delete_model is_tenant_model is_audited_model hides_deleted is_scoped matches agrees
rows_of_tenant_example =
    rows_of_tenant matches matches-Filters Model.item Operation.find_many scope lookup 2 item refl
      refl refl refl

rows_not_deleted_example : item deleted_at ≡ null
unfolding compose_query_args hide_deleted isolate audit tenant_of coalesce is_truthy with_key is_key
    is_soft_delete_model is_tenant_model is_audited_model hides_deleted is_scoped matches agrees
rows_not_deleted_example =
    rows_not_deleted matches matches-Filters Model.item Operation.find_many scope lookup item refl
      refl refl
