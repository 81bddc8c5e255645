-- ===== src/Idempotency.antt =====
-- src/common/interceptors/idempotency.interceptor.ts: a write request with an `Idempotency-Key` is
-- claimed before its handler runs, and a repeat is answered from the stored response. The handler
-- is not under this code: that it runs is an outcome, and what it does is not seen here. `digest`
-- stands for the SHA-256 of method, path and body, `truthy` for the truth of a JSON value, and
-- `ttl` for the configured time to live in milliseconds. A failing database is left out.
pub mod Events
pub mod Replay
use biz360_sme_erp_e_tims.Base.{
  ℕ, suc, ◌+◌, Bool, true, false, not, ◌&&◌, Option, none, some, List, [], ◌∷◌, ◌==◌, leb,
  if◌then◌else◌, find, update_where, keep_where, count_where,
}

pub data Method : Type 0 where
  get post patch put delete other_method : Method

pub record HttpRequest : Type 0 where
  pub method : Method
  pub path : ℕ
  pub body : ℕ
  pub key : Option ℕ
  pub org : Option ℕ

-- A row of `idempotency_keys`. The response is a status code and a body.
pub record KeyRow (B : Type 0) : Type 0 where
  pub id : ℕ
  pub org : ℕ
  pub key : ℕ
  pub hash : ℕ
  pub response : Option (ℕ × B)
  pub expires_at : ℕ

pub record Keys (B : Type 0) : Type 0 where
  pub next_id : ℕ
  pub now : ℕ
  pub rows : List (KeyRow B)

pub data Claim (B : Type 0) : Type 0 where
  created : ℕ → Claim B
  replay : ℕ → B → Claim B
  other : Claim B
  refused : Claim B

-- The handler runs, under a claim or under none; or a stored response is the answer; or the method
-- throws a conflict.
pub data Outcome (B : Type 0) : Type 0 where
  executes : Option ℕ → Outcome B
  answers : ℕ → B → Outcome B
  conflicts : Outcome B

abbrev pub is_write : Method → Bool
is_write Method.get = false
is_write Method.other_method = false
is_write _ = true

-- The key and the organization, where the request has both and is a write.
abbrev pub keyed : HttpRequest → Option (ℕ × ℕ)
keyed r = elim r.key [
  | none ↦ none
  | some k ↦ elim r.org [ none ↦ none | some o ↦ if is_write r.method then some (o, k) else none ]
]

module _ {B : Type 0} where
  abbrev pub outcome_of : Claim B → Outcome B
  outcome_of (created id) = executes (some id)
  outcome_of (replay code body) = answers code body
  outcome_of other = executes none
  outcome_of refused = conflicts

  -- `@@unique([organizationId, key])`
  abbrev pub is_key : ℕ → ℕ → KeyRow B → Bool
  is_key org key r = r.org == org && r.key == key

  abbrev pub has_row_id : ℕ → KeyRow B → Bool
  has_row_id id r = r.id == id

  abbrev pub has_other_id : ℕ → KeyRow B → Bool
  has_other_id id r = not (r.id == id)

  abbrev pub with_response : ℕ → B → KeyRow B → KeyRow B
  with_response code body r = record r { response = some (code, body) }

  -- `abort`
  unfoldable pub abort : ℕ → Keys B → Keys B
  abort id st = record st { rows = keep_where (has_other_id id) st.rows }

  -- The handler under a claim has returned: `complete`, which throws where the row is gone. Whether
  -- the client gets the response.
  unfoldable pub complete : ℕ → ℕ → B → Keys B → Bool × Keys B
  complete id code body st =
      if count_where (has_row_id id) st.rows == 0 then (false, abort id st) else (
        true,
        record st { rows = update_where (has_row_id id) (with_response code body) st.rows },
      )

module _ {B : Type 0} (truthy : B → Bool) where
  -- A claim on a key that has a row: the row that has not expired decides.
  unfoldable pub claim_existing : ℕ → Option (KeyRow B) → Claim B
  claim_existing hash none = other
  claim_existing hash (some e) = if not (e.hash == hash) then refused else elim e.response [
    | none ↦ created e.id
    | some (code, body) ↦ if truthy body then replay code body else created e.id
  ]

  -- The row that is read back, if it has not expired.
  abbrev pub is_live_key : ℕ → ℕ → ℕ → KeyRow B → Bool
  is_live_key org key now r = is_key org key r && leb now r.expires_at

  unfoldable pub claim : ℕ → ℕ → ℕ → ℕ → Keys B → Claim B × Keys B
  claim org key hash expires st = elim (find (is_key org key) st.rows) [
    | some taken ↦ (claim_existing hash (find (is_live_key org key st.now) st.rows), st)
    | none ↦ (
      created st.next_id,
      record st {
        next_id = suc st.next_id;
        rows =
            record {
              id = st.next_id;
              org = org;
              key = key;
              hash = hash;
              response = none;
              expires_at = expires;
            }
            ∷ st.rows;
      },
    )
  ]

  unfoldable pub intercept : (HttpRequest → ℕ) → ℕ → HttpRequest → Keys B → Outcome B × Keys B
  intercept digest ttl r st = elim (keyed r) [
    | none ↦ (executes none, st)
    | some (org, key) ↦
        let (c, st') = claim org key (digest r) (st.now + ttl) st in (outcome_of c, st')
  ]
