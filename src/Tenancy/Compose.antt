-- ===== src/Tenancy/Compose.antt =====
-- `composeQueryArgs`.
use biz360_sme_erp_e_tims.Base.{◌&&◌, Option, none, some, if◌then◌else◌}
use biz360_sme_erp_e_tims.Tenancy.Models.{
  Model, Operation, is_soft_delete_model, is_tenant_model, is_audited_model, hides_deleted,
  is_scoped,
}
use biz360_sme_erp_e_tims.Tenancy.Objects.{
  Key, organization_id, deleted_at, created_by, updated_by, Value, null, Object, coalesce,
  is_truthy, with_key, object_or_empty,
}

pub record Args : Type 0 where
  pub where_clause : Option Object
  pub payload : Option Object
  pub creation : Option Object

-- The organization and the user of the request; both are undefined outside of one.
pub record Scope : Type 0 where
  pub org : Value
  pub user : Value

abbrev pub where_of : Args → Object
where_of a = object_or_empty a.where_clause

abbrev pub payload_of : Args → Object
payload_of a = object_or_empty a.payload

abbrev pub creation_of : Args → Object
creation_of a = object_or_empty a.creation

-- `tenantId`
unfoldable pub tenant_of : Scope → Args → Value
tenant_of s a =
    coalesce (payload_of a organization_id) (coalesce (creation_of a organization_id) s.org)

abbrev pub filter_where : Key → Value → Args → Args
filter_where k v a = record a { where_clause = some (with_key k v (where_of a)) }

unfoldable pub hide_deleted : Model → Operation → Args → Args
hide_deleted m op a =
    if is_soft_delete_model m && hides_deleted op then filter_where deleted_at null a else a

unfoldable pub isolate : Operation → Value → Args → Args
isolate Operation.create t a = record a {
  payload = some (with_key organization_id t (payload_of a));
}
isolate Operation.upsert t a = record (filter_where organization_id t a) {
  creation = some (with_key organization_id t (creation_of a));
}
isolate op t a = if is_scoped op then filter_where organization_id t a else a

abbrev pub over_payload : (Object → Object) → Args → Args
over_payload f a = elim a.payload [ none ↦ a | some o ↦ record a { payload = some (f o) } ]

unfoldable pub audit : Operation → Value → Args → Args
audit Operation.create user a =
    over_payload (λ o. with_key updated_by user (with_key created_by user o)) a
audit Operation.update user a = over_payload (with_key updated_by user) a
audit op user a = a

unfoldable pub compose_query_args : Model → Operation → Scope → Args → Args
unfolding hide_deleted isolate audit tenant_of
compose_query_args m op s a =
    let shown = hide_deleted m op a in
    let t = tenant_of s shown in
    let kept = if is_tenant_model m && is_truthy t then isolate op t shown else shown in
    if is_audited_model m && is_truthy s.user then audit op s.user kept else kept
