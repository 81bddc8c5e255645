-- ===== src/Access/Requests.antt =====
-- The requests on accounts and sessions, in any order, with time passing between them.
use biz360_sme_erp_e_tims.Base.{ℕ, ◌+◌, Option, List, [], ◌∷◌}
use biz360_sme_erp_e_tims.Access.{Role, UserStatus, Identity, Setup}
use biz360_sme_erp_e_tims.Access.Tokens.{rotate, revoke, revoke_session, revoke_all_for_user}
use biz360_sme_erp_e_tims.Access.Login.{login, create_member, admin_update, remove_user}
use biz360_sme_erp_e_tims.Access.Reset.{request_password_reset, reset_password, verify_email}

-- A request that may make a token names the raw value that is drawn for it last.
pub data Request : Type 0 where
  logs_in : ℕ → ℕ → ℕ → Request
  refreshes : ℕ → ℕ → Request
  logs_out : ℕ → Request
  revokes_session : ℕ → ℕ → Request
  revokes_all : ℕ → ℕ → Request
  asks_reset : ℕ → ℕ → Request
  resets_password : ℕ → ℕ → Request
  verifies_email : ℕ → Request
  adds_member : ℕ → ℕ → ℕ → Option Role → Request
  updates_member : ℕ → ℕ → Option Role → Option UserStatus → Request
  removes_member : ℕ → ℕ → Role → Request
  waits : ℕ → Request

module _ (c : Setup) where
  unfoldable pub serve : Request → Identity → Identity
  serve (logs_in email password raw) st = (login c email password raw st).1
  serve (refreshes presented raw) st = (rotate c presented raw st).1
  serve (logs_out presented) st = revoke c presented st
  serve (revokes_session row org) st = revoke_session row org st
  serve (revokes_all user org) st = revoke_all_for_user user org st
  serve (asks_reset email raw) st = request_password_reset c email raw st
  serve (resets_password raw password) st = (reset_password c raw password st).1
  serve (verifies_email raw) st = (verify_email c raw st).1
  serve (adds_member org email password role) st = (create_member c org email password role st).1
  serve (updates_member org target role status) st = (admin_update org target role status st).1
  serve (removes_member org target actor) st = (remove_user org target actor st).1
  serve (waits t) st = record st { now = st.now + t }

  unfoldable pub serve_all : List Request → Identity → Identity
  serve_all [] st = st
  serve_all (r ∷ rs) st = serve_all rs (serve r st)
