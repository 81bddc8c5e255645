-- ===== src/Tenancy/Rows.antt =====
-- About the rows that a query meets.
use biz360_sme_erp_e_tims.Base.{
  ℕ, suc, Bool, true, false, ◌&&◌, ◌≡◌, refl, ap, ◌∙◌, if◌then◌else◌, Bool-cases, inl, inr, arith,
}
use biz360_sme_erp_e_tims.Tenancy.Models.{
  Model, Operation, is_soft_delete_model, is_tenant_model, is_audited_model, hides_deleted,
  is_scoped,
}
use biz360_sme_erp_e_tims.Tenancy.Objects.{
  Key, organization_id, deleted_at, Value, null, text, Object, is_truthy, is_key, with_key,
  object_or_empty,
}
use biz360_sme_erp_e_tims.Tenancy.Compose.{
  Args, Scope, where_of, tenant_of, hide_deleted, isolate, audit, compose_query_args,
}

-- What Prisma promises of a `where`, at the two keys that matter here: a row that it matches has
-- the organization whose id stands there, and no time of deletion where null stands there.
pub record Filters (matches : Object → Object → Bool) : Type 0 where
  pub at_organization :
      (w row : Object) (n : ℕ)
      → w organization_id ≡ text n
      → matches w row ≡ true
      → row organization_id ≡ text n
  pub at_deletion :
      (w row : Object) → w deleted_at ≡ null → matches w row ≡ true → row deleted_at ≡ null

audit-where : (op : Operation) (u : Value) (a : Args) → (audit op u a).where_clause ≡ a.where_clause
unfolding audit
audit-where op u a = ground arith

-- The operations that read or change rows and are meant to leave out the deleted ones.
abbrev pub skips : Operation → Bool
skips Operation.find_first = true
skips Operation.find_first_or_throw = true
skips Operation.find_many = true
skips Operation.count = true
skips Operation.aggregate = true
skips Operation.update = true
skips Operation.update_many = true
skips Operation.upsert = true
skips Operation.delete_many = true
skips _ = false

skipped : (op : Operation) → skips op ≡ true → hides_deleted op ≡ true
unfolding hides_deleted
skipped Operation.find_first h = refl
skipped _ h = ground (arith, h)

hidden-where :
    (m : Model) (op : Operation) (a : Args)
    → is_soft_delete_model m ≡ true
    → skips op ≡ true
    → where_of (hide_deleted m op a) deleted_at ≡ null
unfolding hide_deleted with_key is_key
hidden-where m op a s h = rw (s, skipped op h, hide_deleted) refl

-- The tenant is the one that the arguments had before.
hidden-tenant :
    (m : Model) (op : Operation) (s : Scope) (a : Args)
    → tenant_of s (hide_deleted m op a) ≡ tenant_of s a
unfolding hide_deleted tenant_of
hidden-tenant m op s a = ground arith

-- The operations that find or change rows and are meant to stay within the tenant.
abbrev pub meets : Operation → Bool
meets Operation.find_first = true
meets Operation.find_first_or_throw = true
meets Operation.find_many = true
meets Operation.update = true
meets Operation.update_many = true
meets Operation.upsert = true
meets Operation.delete = true
meets Operation.delete_many = true
meets _ = false

isolated-where :
    (op : Operation) (t : Value) (a : Args)
    → meets op ≡ true
    → where_of (isolate op t a) organization_id ≡ t
unfolding isolate with_key is_key is_scoped
isolated-where Operation.upsert t a h = refl
isolated-where Operation.create t a h = cc
isolated-where _ t a h = ground (arith, h)

-- No other key of the filter is changed.
isolated-other :
    (op : Operation) (t : Value) (a : Args) (k : Key)
    → is_key k organization_id ≡ false
    → where_of (isolate op t a) k ≡ where_of a k
unfolding isolate with_key is_scoped
isolated-other Operation.upsert t a k h = rw h refl
isolated-other Operation.create t a k h = refl
isolated-other _ t a k h = ground (arith, h)

-- The filter that a query goes out with: the actor changes nothing of it.
composed-where :
    (m : Model) (op : Operation) (s : Scope) (a : Args)
    → where_of (compose_query_args m op s a)
      ≡ where_of (
          if is_tenant_model m && is_truthy (tenant_of s a)
          then isolate op (tenant_of s a) (hide_deleted m op a)
          else hide_deleted m op a)
unfolding compose_query_args
composed-where m op s a =
    rw (hidden-tenant m op s a, compose_query_args)
      (elim (Bool-cases (is_audited_model m && is_truthy s.user)) [
        | inl e ↦ rw e (ap object_or_empty (audit-where op s.user _))
        | inr e ↦ rw e refl
      ])

module _ (matches : Object → Object → Bool) (filters : Filters matches) where
  -- Where the model is a tenant's, the tenant is a text that is not empty and the operation finds,
  -- updates, upserts or deletes rows, one or many, and is no lookup by a unique key, every row that the query meets is of the tenant.
  pub rows_of_tenant :
      (m : Model) (op : Operation) (s : Scope) (a : Args) (n : ℕ) (row : Object)
      → is_tenant_model m ≡ true
      → meets op ≡ true
      → tenant_of s a ≡ text (suc n)
      → matches (where_of (compose_query_args m op s a)) row ≡ true
      → row organization_id ≡ text (suc n)
  unfolding is_truthy
  rows_of_tenant m op s a n row tenant met e found =
      filters.at_organization _ row (suc n)
        (ap (λ w. w organization_id) (composed-where m op s a)
          ∙ rw (tenant, e) (isolated-where op (text (suc n)) (hide_deleted m op a) met))
        found

  -- Where the model keeps deleted rows and the operation finds rows, one or many, and is no lookup
  -- by a unique key, or counts, aggregates, updates or upserts them, or deletes many, no row that the
  -- query meets is deleted.
  pub rows_not_deleted :
      (m : Model) (op : Operation) (s : Scope) (a : Args) (row : Object)
      → is_soft_delete_model m ≡ true
      → skips op ≡ true
      → matches (where_of (compose_query_args m op s a)) row ≡ true
      → row deleted_at ≡ null
  unfolding is_key
  rows_not_deleted m op s a row soft hides found =
      filters.at_deletion _ row
        (ap (λ w. w deleted_at) (composed-where m op s a)
          ∙ elim (Bool-cases (is_tenant_model m && is_truthy (tenant_of s a))) [
            | inl e ↦ rw e (isolated-other op _ _ deleted_at refl ∙ hidden-where m op a soft hides)
            | inr e ↦ rw e (hidden-where m op a soft hides)
          ])
        found
