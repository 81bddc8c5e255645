-- ===== src/Access/Login.antt =====
-- auth/auth.service.ts: `login` with its lockout, and the accounts of users.service.ts.
use biz360_sme_erp_e_tims.Base.{
  ℕ, suc, ◌+◌, Bool, true, false, not, ◌&&◌, Option, none, some, ◌∷◌, ◌==◌, ltb, leb, find,
  update_where, if◌then◌else◌, or_default,
}
use biz360_sme_erp_e_tims.Access.{
  Role, UserStatus, User, RefreshToken, Identity, Setup, Answer, refused, granted, TokenPair,
  has_id, has_email, is_live_user, is_member, is_admin, is_suspended, is_pending,
  invalid_credentials, locked, suspended, not_verified, user_missing, email_taken, unique_violation,
}
use biz360_sme_erp_e_tims.Access.Tokens.{issue_refresh_token, revoke_where}

abbrev pub is_locked : ℕ → Option ℕ → Bool
is_locked now none = false
is_locked now (some until) = ltb now until

-- `prisma.user.update`
unfoldable pub update_user_row : ℕ → (User → User) → Identity → Identity
update_user_row id f st = record st { users = update_where (is_live_user id) f st.users }

abbrev pub logged_in : ℕ → User → User
logged_in now u = record u {
  status = UserStatus.active;
  verified_at = some (or_default u.verified_at now);
  failed = 0;
  locked_until = none;
}

abbrev pub lock_out : ℕ → User → User
lock_out until u = record u { failed = 0; locked_until = some until }

abbrev pub with_failed : ℕ → User → User
with_failed n u = record u { failed = n }

module _ (c : Setup) where
  -- `issueSessionPair`
  unfoldable pub issue_session_pair : ℕ → ℕ → Identity → Answer TokenPair × Identity
  unfolding issue_refresh_token
  issue_session_pair user raw st = elim (find (has_id user) st.users) [
    | none ↦ (refused user_missing, st)
    | some u ↦ (
      granted (record { user = u.id; raw = raw; row = st.next_id }),
      issue_refresh_token c user u.org none raw st,
    )
  ]

  -- `recordFailedLogin`, with the count that was read.
  unfoldable pub record_failed_login : ℕ → ℕ → Identity → Identity
  unfolding update_user_row
  record_failed_login user current st =
      if leb c.threshold (current + 1)
      then update_user_row user (lock_out (st.now + c.lockout_ms)) st
      else update_user_row user (with_failed (current + 1)) st

  -- `login` after it has read the row.
  unfoldable pub login_read : User → ℕ → ℕ → Identity → Answer TokenPair × Identity
  unfolding record_failed_login issue_session_pair update_user_row
  login_read u password raw st =
      if u.deleted
      then (refused invalid_credentials, st)
      else if is_locked st.now u.locked_until
      then (refused locked, st)
      else if not (c.verify u.password password)
      then (refused invalid_credentials, record_failed_login u.id u.failed st)
      else if is_suspended u.status
      then (refused suspended, st)
      else if is_pending u.status && c.verification_required
      then (refused not_verified, st)
      else issue_session_pair u.id raw (update_user_row u.id (logged_in st.now) st)

  unfoldable pub login : ℕ → ℕ → ℕ → Identity → Answer TokenPair × Identity
  unfolding login_read
  login email password raw st = elim (find (has_email email) st.users) [
    | none ↦ (refused invalid_credentials, st)
    | some u ↦ login_read u password raw st
  ]

  abbrev pub is_live_member : ℕ → ℕ → User → Bool
  is_live_member org email u = u.email == email && u.org == org && not u.deleted

  -- `createMember`. The lookup carries the filters of the database extension; the unique index on
  -- the email counts every account.
  unfoldable pub create_member : ℕ → ℕ → ℕ → Option Role → Identity → Answer (Unit {0}) × Identity
  create_member org email password role st = elim (find (is_live_member org email) st.users) [
    | some u ↦ (refused email_taken, st)
    | none ↦ elim (find (has_email email) st.users) [
      | some u ↦ (refused unique_violation, st)
      | none ↦ (
        granted tt,
        record st {
          next_id = suc st.next_id;
          users =
              record {
                id = st.next_id;
                org = org;
                email = email;
                password = c.hash_password password;
                role = or_default role Role.staff;
                status = UserStatus.active;
                failed = 0;
                locked_until = none;
                verified_at = some st.now;
                deleted = false;
              }
              ∷ st.users;
        },
      )
    ]
  ]

abbrev pub with_role_and_status : Option Role → Option UserStatus → User → User
with_role_and_status role status u = record u {
  role = or_default role u.role;
  status = or_default status u.status;
}

-- `adminUpdate`
unfoldable pub admin_update :
    ℕ → ℕ → Option Role → Option UserStatus → Identity → Answer (Unit {0}) × Identity
unfolding update_user_row
admin_update org target role status st = elim (find (is_member org target) st.users) [
  | none ↦ (refused user_missing, st)
  | some u ↦ (granted tt, update_user_row target (with_role_and_status role status) st)
]

abbrev pub delete_user : User → User
delete_user u = record u { deleted = true }

abbrev pub is_live_token_of : ℕ → RefreshToken → Bool
is_live_token_of user t = t.user == user && not t.revoked

-- `remove`
unfoldable pub remove_user : ℕ → ℕ → Role → Identity → Answer (Unit {0}) × Identity
unfolding update_user_row revoke_where
remove_user org target actor st = elim (find (is_member org target) st.users) [
  | none ↦ (refused user_missing, st)
  | some u ↦ if is_admin u.role && not (is_admin actor) then (refused user_missing, st) else (
    granted tt,
    revoke_where (is_live_token_of target) (update_user_row target delete_user st),
  )
]
