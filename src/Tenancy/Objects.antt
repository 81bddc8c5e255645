-- ===== src/Tenancy/Objects.antt =====
-- Objects of JavaScript, as far as the extension reads and writes them.
use biz360_sme_erp_e_tims.Base.{ℕ, zero, Bool, true, false, Option, none, some, ◌==◌, if◌then◌else◌}

-- The keys that the extension writes, and any other one.
pub data Key : Type 0 where
  organization_id deleted_at created_by updated_by : Key
  other : ℕ → Key

-- A text is a number, the empty one 0; a condition stands for any other object or value.
pub data Value : Type 0 where
  undefined null : Value
  text : ℕ → Value
  condition : ℕ → Value

-- The value at each key, undefined where there is none.
abbrev pub Object : Type 0
Object = Key → Value

abbrev pub empty : Object
empty k = undefined

-- `a ?? b`
unfoldable pub coalesce : Value → Value → Value
coalesce undefined b = b
coalesce null b = b
coalesce a b = a

unfoldable pub is_truthy : Value → Bool
is_truthy undefined = false
is_truthy null = false
is_truthy (text zero) = false
is_truthy _ = true

unfoldable pub is_key : Key → Key → Bool
is_key organization_id organization_id = true
is_key deleted_at deleted_at = true
is_key created_by created_by = true
is_key updated_by updated_by = true
is_key (other a) (other b) = a == b
is_key _ _ = false

-- `{ ...o, [k]: v }`
unfoldable pub with_key : Key → Value → Object → Object
with_key k v o j = if is_key j k then v else o j

-- `args.where ?? {}`, and a spread of what may be absent.
abbrev pub object_or_empty : Option Object → Object
object_or_empty none = empty
object_or_empty (some o) = o
