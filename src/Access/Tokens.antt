-- ===== src/Access/Tokens.antt =====
-- auth/tokens.service.ts: refresh tokens, which are exchanged for new ones within a family. The
-- raw value of a new token is random, and comes with the request.
use biz360_sme_erp_e_tims.Base.{
  ℕ, suc, ◌+◌, Bool, true, false, not, ◌&&◌, Option, none, some, ◌∷◌, ◌==◌, ltb, find, update_where,
  if◌then◌else◌, or_default,
}
use biz360_sme_erp_e_tims.Access.{
  User, RefreshToken, Identity, Setup, Answer, refused, granted, TokenPair, has_id, invalid_token,
  reuse_detected, token_expired,
}

abbrev pub revoke_token : RefreshToken → RefreshToken
revoke_token t = record t { revoked = true }

abbrev pub has_hash : ℕ → RefreshToken → Bool
has_hash h t = t.hash == h

abbrev pub is_in_family : ℕ → RefreshToken → Bool
is_in_family f t = t.family == f

abbrev pub has_token_id : ℕ → RefreshToken → Bool
has_token_id k t = t.id == k

-- `updateMany` with `revokedAt: new Date()`
unfoldable pub revoke_where : (RefreshToken → Bool) → Identity → Identity
revoke_where p st = record st { tokens = update_where p revoke_token st.tokens }

-- Replaced by the row of the next token.
abbrev pub replace_token : ℕ → RefreshToken → RefreshToken
replace_token k t = record t { revoked = true; replaced_by = some k }

abbrev pub is_live_hash : ℕ → RefreshToken → Bool
is_live_hash h t = t.hash == h && not t.revoked

abbrev pub is_live_session : ℕ → ℕ → RefreshToken → Bool
is_live_session k org t = t.id == k && t.org == org && not t.revoked

abbrev pub is_session_of : ℕ → ℕ → RefreshToken → Bool
is_session_of user org t = t.user == user && t.org == org && not t.revoked

module _ (c : Setup) where
  -- `issueRefreshToken`: the row under the next id, in the family that is given or in a new one.
  unfoldable pub issue_refresh_token : ℕ → ℕ → Option ℕ → ℕ → Identity → Identity
  issue_refresh_token user org family raw st = record st {
    next_id = suc (suc st.next_id);
    tokens =
        record {
          id = st.next_id;
          org = org;
          user = user;
          hash = c.digest raw;
          family = or_default family (suc st.next_id);
          expires_at = st.now + c.refresh_ms;
          revoked = false;
          replaced_by = none;
        }
        ∷ st.tokens;
  }

  -- The exchange of a live row for the next one of its family.
  unfoldable pub exchange : RefreshToken → User → ℕ → Identity → Answer TokenPair × Identity
  unfolding issue_refresh_token
  exchange t u raw st = (
    granted (record { user = u.id; raw = raw; row = st.next_id }),
    let next = issue_refresh_token t.user t.org (some t.family) raw st in
        record next {
          tokens = update_where (has_token_id t.id) (replace_token st.next_id) next.tokens;
        },
  )

  -- `rotate` after it has read the row and its user.
  unfoldable pub rotate_read : RefreshToken → User → ℕ → Identity → Answer TokenPair × Identity
  unfolding revoke_where exchange
  rotate_read t u raw st =
      if u.deleted
      then (refused invalid_token, st)
      else if t.revoked
      then (refused reuse_detected, revoke_where (is_in_family t.family) st)
      else if ltb t.expires_at st.now
      then (refused token_expired, revoke_where (is_in_family t.family) st)
      else exchange t u raw st

  -- `rotate`, of a presented token and the raw value of the next one.
  unfoldable pub rotate : ℕ → ℕ → Identity → Answer TokenPair × Identity
  unfolding rotate_read
  rotate presented raw st = elim (find (has_hash (c.digest presented)) st.tokens) [
    | none ↦ (refused invalid_token, st)
    | some t ↦ elim (find (has_id t.user) st.users) [
      | none ↦ (refused invalid_token, st)
      | some u ↦ rotate_read t u raw st
    ]
  ]

  unfoldable pub revoke : ℕ → Identity → Identity
  unfolding revoke_where
  revoke presented st = revoke_where (is_live_hash (c.digest presented)) st

unfoldable pub revoke_session : ℕ → ℕ → Identity → Identity
unfolding revoke_where
revoke_session row org st = revoke_where (is_live_session row org) st

unfoldable pub revoke_all_for_user : ℕ → ℕ → Identity → Identity
unfolding revoke_where
revoke_all_for_user user org st = revoke_where (is_session_of user org) st
