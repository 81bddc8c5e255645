-- ===== src/Access.antt =====
-- src/modules/auth: the accounts of users with their passwords and lockouts, and the sessions that
-- refresh tokens carry (auth.service.ts, tokens.service.ts), with the changes that
-- src/modules/users/users.service.ts makes to accounts. Times are in milliseconds, an email is the
-- normalised one, and an account that a foreign key names is there.
pub mod Tokens
pub mod Login
pub mod Reset
pub mod Requests
pub mod Rules
pub mod Dead
pub mod Families
pub mod Fork
pub mod Lockout
pub mod Links
pub mod Spent
use biz360_sme_erp_e_tims.Base.{ℕ, Bool, true, false, not, ◌&&◌, Option, none, some, List, ◌==◌}

pub data Role : Type 0 where
  admin manager accountant staff read_only : Role

pub data UserStatus : Type 0 where
  pending active suspended : UserStatus

pub record User : Type 0 where
  pub id : ℕ
  pub org : ℕ
  pub email : ℕ
  pub password : ℕ
  pub role : Role
  pub status : UserStatus
  pub failed : ℕ
  pub locked_until : Option ℕ
  pub verified_at : Option ℕ
  pub deleted : Bool

pub record RefreshToken : Type 0 where
  pub id : ℕ
  pub org : ℕ
  pub user : ℕ
  pub hash : ℕ
  pub family : ℕ
  pub expires_at : ℕ
  pub revoked : Bool
  pub replaced_by : Option ℕ

-- A row of `password_reset_tokens` or of `email_verification_tokens`.
pub record MailToken : Type 0 where
  pub id : ℕ
  pub org : ℕ
  pub user : ℕ
  pub hash : ℕ
  pub expires_at : ℕ
  pub used : Bool

pub record Identity : Type 0 where
  pub next_id : ℕ
  pub now : ℕ
  pub users : List User
  pub tokens : List RefreshToken
  pub resets : List MailToken
  pub verifications : List MailToken

-- What the code takes from the configuration and from cryptographic libraries: the digest of a
-- token, the hash of a password and its verification.
pub record Setup : Type 0 where
  pub digest : ℕ → ℕ
  pub hash_password : ℕ → ℕ
  pub verify : ℕ → ℕ → Bool
  pub threshold : ℕ
  pub lockout_ms : ℕ
  pub refresh_ms : ℕ
  pub reset_ms : ℕ
  pub verification_required : Bool

-- The exceptions, by the `throw` that was reached.
pub data Refusal : Type 0 where
  invalid_token reuse_detected token_expired invalid_credentials locked suspended : Refusal
  not_verified invalid_link account_gone user_missing email_taken unique_violation : Refusal

-- What a method comes to; what it wrote before a throw stays.
pub data Answer (A : Type 0) : Type 0 where
  refused : Refusal → Answer A
  granted : A → Answer A

-- An access token and a refresh token: the user of the first, and the raw value and row of the
-- second.
pub record TokenPair : Type 0 where
  pub user : ℕ
  pub raw : ℕ
  pub row : ℕ

abbrev pub has_id : ℕ → User → Bool
has_id id u = u.id == id

abbrev pub has_email : ℕ → User → Bool
has_email email u = u.email == email

-- The database extension takes deleted accounts out of `findFirst` and `update`.
abbrev pub is_live_user : ℕ → User → Bool
is_live_user id u = u.id == id && not u.deleted

abbrev pub is_member : ℕ → ℕ → User → Bool
is_member org id u = u.id == id && u.org == org && not u.deleted

abbrev pub is_admin : Role → Bool
is_admin Role.admin = true
is_admin _ = false

abbrev pub is_suspended : UserStatus → Bool
is_suspended UserStatus.suspended = true
is_suspended _ = false

abbrev pub is_pending : UserStatus → Bool
is_pending UserStatus.pending = true
is_pending _ = false
