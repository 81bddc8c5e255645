-- ===== src/Tests/Sessions.antt =====
-- Accounts and sessions, with a digest that adds one and passwords that are their own hashes.
use biz360_sme_erp_e_tims.Base.{
  ℕ, ◌+◌, ◌≤◌, Bool, true, false, ◌≡◌, refl, some, none, List, [], ◌∷◌, ◌==◌, find, count_where,
  arith,
}
use biz360_sme_erp_e_tims.Access.{
  Role, UserStatus, User, RefreshToken, MailToken, Identity, Setup, refused, granted, has_id,
  reuse_detected, locked, invalid_link,
}
use biz360_sme_erp_e_tims.Access.Tokens.{rotate, rotate_read, revoke_where, issue_refresh_token}
use biz360_sme_erp_e_tims.Access.Login.{login, login_read, update_user_row, issue_session_pair}
use biz360_sme_erp_e_tims.Access.Reset.{reset_password, with_password}
use biz360_sme_erp_e_tims.Access.Requests.{Request, logs_in, waits, serve, serve_all}
use biz360_sme_erp_e_tims.Access.Families.{IsRefused, reuse_ends_family}
use biz360_sme_erp_e_tims.Access.Fork.{is_live_in, exchanged_twice}
use biz360_sme_erp_e_tims.Access.Lockout.{
  wait, guess_all, guess_at_once, guesses_lock_out, guesses_count_once,
}
use biz360_sme_erp_e_tims.Access.Spent.{SignedOut, reset_once}

abbrev setup : Setup
setup = record {
  digest = λ n. n + 1;
  hash_password = λ n. n;
  verify = λ h p. h == p;
  threshold = 3;
  lockout_ms = 900;
  refresh_ms = 5000;
  reset_ms = 600;
  verification_required = true;
}

abbrev asha : User
asha = record {
  id = 1;
  org = 1;
  email = 50;
  password = 777;
  role = Role.admin;
  status = UserStatus.active;
  failed = 1;
  locked_until = none;
  verified_at = some 10;
  deleted = false;
}

abbrev token : ℕ → ℕ → Bool → RefreshToken
token id hash revoked = record {
  id = id;
  org = 1;
  user = 1;
  hash = hash;
  family = 2;
  expires_at = 9000;
  revoked = revoked;
  replaced_by = none;
}

abbrev reset_link : MailToken
reset_link = record { id = 6; org = 1; user = 1; hash = 31; expires_at = 1500; used = false }

-- A spent token, the one that replaced it, and a reset link.
abbrev identity : Identity
identity = record {
  next_id = 10;
  now = 1000;
  users = asha ∷ [];
  tokens = token 4 21 false ∷ token 3 11 true ∷ [];
  resets = reset_link ∷ [];
  verifications = [];
}

abbrev requests : List Request
requests = logs_in 50 777 80 ∷ waits 30 ∷ []

reuse_ends_family_example :
    ((rotate setup 10 90 identity).0 ≡ refused reuse_detected)
    × IsRefused ((rotate setup 20 91 (serve_all setup requests (rotate setup 10 90 identity).1)).0)
unfolding rotate rotate_read revoke_where serve_all serve login login_read update_user_row
    issue_session_pair issue_refresh_token
reuse_ends_family_example =
    reuse_ends_family setup 10 (token 3 11 true) asha identity 90 20 91 requests (token 4 21 true)
      refl refl refl refl (omega arith) refl refl

exchanged_twice_example :
    ((rotate_read setup (token 4 21 false) asha 90 identity).0
      ≡ granted (record { user = 1; raw = 90; row = 10 }))
    × ((rotate_read setup
          (token 4 21 false)
          asha
          91
          (rotate_read setup (token 4 21 false) asha 90 identity).1).0
        ≡ granted (record { user = 1; raw = 91; row = 12 }))
    × (2
        ≤ count_where
            (is_live_in 2)
            ((rotate_read setup
                (token 4 21 false)
                asha
                91
                (rotate_read setup (token 4 21 false) asha 90 identity).1).1
              ).tokens)
exchanged_twice_example =
    exchanged_twice setup (token 4 21 false) asha 90 91 identity refl refl refl (omega arith)

abbrev wrong : List (ℕ × ℕ)
wrong = (5, 81) ∷ (6, 82) ∷ []

guesses_lock_out_example :
    login setup 50 777 83 (wait 100 (guess_all setup 50 wrong identity))
    ≡ (refused locked, wait 100 (guess_all setup 50 wrong identity))
guesses_lock_out_example =
    guesses_lock_out setup 50 asha wrong 100 777 83 identity refl refl refl (refl, (refl, tt))
      (omega arith) (omega arith) (omega arith)

guesses_count_once_example :
    guess_at_once setup asha ((5, 81) ∷ (6, 82) ∷ (7, 83) ∷ []) identity
    ≡ guess_at_once setup asha ((5, 81) ∷ []) identity
guesses_count_once_example =
    guesses_count_once setup asha 5 81 ((6, 82) ∷ (7, 83) ∷ []) identity refl refl
      (refl, (refl, (refl, tt)))

reset_once_example :
    ((reset_password setup 30 888 identity).0 ≡ granted tt)
    × SignedOut 1 ((reset_password setup 30 888 identity).1).tokens
    × (find (has_id 1) ((reset_password setup 30 888 identity).1).users
        ≡ some (with_password 888 asha))
    × ((reset_password setup 30 999
          (serve_all setup requests (reset_password setup 30 888 identity).1)).0
        ≡ refused invalid_link)
reset_once_example =
    reset_once setup 30 888 reset_link asha identity 999 requests refl ((λ e. refl), tt) refl refl
      refl (tt, (tt, tt))
