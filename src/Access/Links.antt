-- ===== src/Access/Links.antt =====
-- The requests that leave the reset links as they are.
use biz360_sme_erp_e_tims.Base.{ℕ, ◌≡◌, Option, arith}
use biz360_sme_erp_e_tims.Access.{Role, UserStatus, Identity, Setup}
use biz360_sme_erp_e_tims.Access.Tokens.{
  revoke_where, issue_refresh_token, exchange, rotate_read, rotate,
}
use biz360_sme_erp_e_tims.Access.Login.{
  issue_session_pair, record_failed_login, login_read, login, update_user_row, create_member,
  admin_update, remove_user,
}
use biz360_sme_erp_e_tims.Access.Reset.{verify_email}

module _ (c : Setup) where
  pub rotate_resets : (p raw : ℕ) (st : Identity) → ((rotate c p raw st).1).resets ≡ st.resets
  unfolding rotate rotate_read exchange issue_refresh_token revoke_where
  rotate_resets p raw st = ground arith

  pub failed_resets :
      (user n : ℕ) (st : Identity) → (record_failed_login c user n st).resets ≡ st.resets
  unfolding record_failed_login update_user_row
  failed_resets user n st = ground arith

  pub pair_resets :
      (user raw : ℕ) (st : Identity) → ((issue_session_pair c user raw st).1).resets ≡ st.resets
  unfolding issue_session_pair issue_refresh_token
  pair_resets user raw st = ground arith

  pub login_resets :
      (email p raw : ℕ) (st : Identity) → ((login c email p raw st).1).resets ≡ st.resets
  unfolding login login_read update_user_row
  login_resets email p raw st = grind (arith, failed_resets, pair_resets)

  pub verify_resets : (raw : ℕ) (st : Identity) → ((verify_email c raw st).1).resets ≡ st.resets
  unfolding verify_email update_user_row
  verify_resets raw st = ground arith

  pub member_resets :
      (org email p : ℕ) (role : Option Role) (st : Identity)
      → ((create_member c org email p role st).1).resets ≡ st.resets
  unfolding create_member
  member_resets org email p role st = ground arith

pub admin_resets :
    (org target : ℕ) (role : Option Role) (status : Option UserStatus) (st : Identity)
    → ((admin_update org target role status st).1).resets ≡ st.resets
unfolding admin_update update_user_row
admin_resets org target role status st = ground arith

pub remove_resets :
    (org target : ℕ) (actor : Role) (st : Identity)
    → ((remove_user org target actor st).1).resets ≡ st.resets
unfolding remove_user update_user_row revoke_where
remove_resets org target actor st = ground arith
