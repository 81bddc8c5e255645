-- ===== src/Access/Reset.antt =====
-- auth/auth.service.ts: the links that are sent by mail, to verify an address and to reset a
-- password.
use biz360_sme_erp_e_tims.Base.{
  ℕ, suc, ◌+◌, Bool, true, false, not, ◌&&◌, none, some, ◌∷◌, ◌==◌, ltb, find, update_where,
  if◌then◌else◌,
}
use biz360_sme_erp_e_tims.Access.{
  UserStatus, User, MailToken, Identity, Setup, Answer, refused, granted, has_id, has_email,
  invalid_link, account_gone,
}
use biz360_sme_erp_e_tims.Access.Tokens.{revoke_where}
use biz360_sme_erp_e_tims.Access.Login.{update_user_row, is_live_token_of}

abbrev pub is_unused : ℕ → MailToken → Bool
is_unused h m = m.hash == h && not m.used

abbrev pub has_mail_id : ℕ → MailToken → Bool
has_mail_id k m = m.id == k

abbrev pub use_mail : MailToken → MailToken
use_mail m = record m { used = true }

abbrev pub with_password : ℕ → User → User
with_password p u = record u { password = p }

abbrev pub verify_user : ℕ → User → User
verify_user now u = record u { status = UserStatus.active; verified_at = some now }

module _ (c : Setup) where
  -- `requestPasswordReset`; the answer is the same whether or not the account is there.
  unfoldable pub request_password_reset : ℕ → ℕ → Identity → Identity
  request_password_reset email raw st = elim (find (has_email email) st.users) [
    | none ↦ st
    | some u ↦ if u.deleted then st else record st {
      next_id = suc st.next_id;
      resets =
          record {
            id = st.next_id;
            org = u.org;
            user = u.id;
            hash = c.digest raw;
            expires_at = st.now + c.reset_ms;
            used = false;
          }
          ∷ st.resets;
    }
  ]

  -- The transaction of `resetPassword`, which throws where the account was deleted.
  unfoldable pub reset_with : MailToken → ℕ → Identity → Identity
  unfolding update_user_row revoke_where
  reset_with m password st =
      let changed = update_user_row m.user (with_password (c.hash_password password)) st in
      let spent = record changed {
        resets = update_where (has_mail_id m.id) use_mail changed.resets;
      } in
      revoke_where (is_live_token_of m.user) spent

  unfoldable pub reset_password : ℕ → ℕ → Identity → Answer (Unit {0}) × Identity
  unfolding reset_with
  reset_password raw password st = elim (find (is_unused (c.digest raw)) st.resets) [
    | none ↦ (refused invalid_link, st)
    | some m ↦
        if ltb m.expires_at st.now
        then (refused invalid_link, st)
        else elim (find (has_id m.user) st.users) [
          | none ↦ (refused account_gone, st)
          | some u ↦
              if u.deleted
              then (refused account_gone, st)
              else (granted tt, reset_with m password st)
        ]
  ]

  unfoldable pub verify_email : ℕ → Identity → Answer (Unit {0}) × Identity
  unfolding update_user_row
  verify_email raw st = elim (find (is_unused (c.digest raw)) st.verifications) [
    | none ↦ (refused invalid_link, st)
    | some m ↦
        if ltb m.expires_at st.now
        then (refused invalid_link, st)
        else elim (find (has_id m.user) st.users) [
          | none ↦ (refused account_gone, st)
          | some u ↦
              if u.deleted
              then (refused account_gone, st)
              else (let changed = update_user_row m.user (verify_user st.now) st in
                  (
                    granted tt,
                    record changed {
                      verifications =
                          update_where (has_mail_id m.id) use_mail changed.verifications;
                    },
                  ))
        ]
  ]
