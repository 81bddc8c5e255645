-- ===== src/Access/Spent.antt =====
-- About a link that has reset a password.
use biz360_sme_erp_e_tims.Base.{
  ℕ, true, false, ◌≡◌, ◌≢◌, ◌⊎◌, refl, ◌∙◌, Option-cases, none, some, List, [], ◌∷◌, ◌==◌, ltb, All,
  All-update_where, find, find_passes, find-update_any, update_where, Bool-cases, inl, inr, arith,
}
use biz360_sme_erp_e_tims.Access.{
  User, RefreshToken, MailToken, Identity, Setup, refused, granted, has_id, has_email, is_live_user,
  invalid_link,
}
use biz360_sme_erp_e_tims.Access.Tokens.{
  revoke_token, revoke_where, revoke, revoke_session, revoke_all_for_user,
}
use biz360_sme_erp_e_tims.Access.Login.{update_user_row, is_live_token_of}
use biz360_sme_erp_e_tims.Access.Reset.{
  is_unused, has_mail_id, use_mail, with_password, request_password_reset, reset_with,
  reset_password,
}
use biz360_sme_erp_e_tims.Access.Requests.{
  Request, logs_in, refreshes, logs_out, revokes_session, revokes_all, asks_reset, resets_password,
  verifies_email, adds_member, updates_member, removes_member, waits, serve, serve_all,
}
use biz360_sme_erp_e_tims.Access.Links.{
  rotate_resets, login_resets, verify_resets, member_resets, admin_resets, remove_resets,
}

-- Every link with the digest is used.
abbrev pub AreUsed : ℕ → List MailToken → Type 0
AreUsed h ms = All (λ m. m.hash ≡ h → m.used ≡ true) ms

-- No link with the digest is drawn.
abbrev pub DrawsOther : (ℕ → ℕ) → ℕ → Request → Type 0
DrawsOther digest h (asks_reset email raw) = digest raw ≢ h
DrawsOther digest h _ = Unit

module _ (c : Setup) (h : ℕ) where
  used_after :
      (k : ℕ) (ms : List MailToken)
      → AreUsed h ms
      → AreUsed h (update_where (has_mail_id k) use_mail ms)
  used_after k ms all =
      All-update_where (λ m. m.hash ≡ h → m.used ≡ true) (λ m. m.hash ≡ h → m.used ≡ true)
        (has_mail_id k) use_mail
        (λ m used. elim (Bool-cases (m.id == k)) [
          | inl e ↦ rw e (λ same. refl)
          | inr e ↦ rw e used
        ])
        ms all

  reset_resets :
      (raw p : ℕ) (st : Identity)
      → (((reset_password c raw p st).1).resets ≡ st.resets)
        ⊎ ((k : ℕ) × (((reset_password c raw p st).1).resets
              ≡ update_where (has_mail_id k) use_mail st.resets))
  unfolding reset_password reset_with update_user_row revoke_where
  reset_resets raw p st = elim (Option-cases (find (is_unused (c.digest raw)) st.resets)) [
    | inl e ↦ inl (ground (arith, e))
    | inr (m, e) ↦ elim (Bool-cases (ltb m.expires_at st.now)) [
      | inl late ↦ inl (ground (arith, e, late))
      | inr early ↦ elim (Option-cases (find (has_id m.user) st.users)) [
        | inl missing ↦ inl (ground (arith, e, early, missing))
        | inr (u, there) ↦ elim (Bool-cases u.deleted) [
          | inl gone ↦ inl (ground (arith, e, early, there, gone))
          | inr kept ↦ inr (m.id, ground (arith, e, early, there, kept))
        ]
      ]
    ]
  ]

  reset-AreUsed :
      (raw p : ℕ) (st : Identity)
      → AreUsed h st.resets
      → AreUsed h ((reset_password c raw p st).1).resets
  reset-AreUsed raw p st k = elim (reset_resets raw p st) [
    | inl e ↦ rw e k
    | inr (id, e) ↦ rw e (used_after id st.resets k)
  ]

  asked-AreUsed :
      (email raw : ℕ) (st : Identity)
      → c.digest raw ≢ h
      → AreUsed h st.resets
      → AreUsed h (request_password_reset c email raw st).resets
  unfolding request_password_reset
  asked-AreUsed email raw st other k = elim (Option-cases (find (has_email email) st.users)) [
    | inl e ↦ rw (e, request_password_reset) k
    | inr (u, e) ↦
        rw (e, request_password_reset)
          (elim (Bool-cases u.deleted) [
            | inl gone ↦ rw gone k
            | inr there ↦ rw there ((λ same. absurd (other same)), k)
          ])
  ]

  serve-AreUsed :
      (r : Request) (st : Identity)
      → DrawsOther c.digest h r
      → AreUsed h st.resets
      → AreUsed h (serve c r st).resets
  unfolding serve revoke revoke_session revoke_all_for_user revoke_where
  serve-AreUsed (logs_in email p raw) st o k = rw (login_resets c email p raw st) k
  serve-AreUsed (refreshes p raw) st o k = rw (rotate_resets c p raw st) k
  serve-AreUsed (logs_out p) st o k = k
  serve-AreUsed (revokes_session row org) st o k = k
  serve-AreUsed (revokes_all user org) st o k = k
  serve-AreUsed (asks_reset email raw) st o k = asked-AreUsed email raw st o k
  serve-AreUsed (resets_password raw p) st o k = reset-AreUsed raw p st k
  serve-AreUsed (verifies_email raw) st o k = rw (verify_resets c raw st) k
  serve-AreUsed (adds_member org email p role) st o k = rw (member_resets c org email p role st) k
  serve-AreUsed (updates_member org target role status) st o k =
      rw (admin_resets org target role status st) k
  serve-AreUsed (removes_member org target actor) st o k = rw (remove_resets org target actor st) k
  serve-AreUsed (waits t) st o k = k

  serve_all-AreUsed :
      (rs : List Request) (st : Identity)
      → All (DrawsOther c.digest h) rs
      → AreUsed h st.resets
      → AreUsed h (serve_all c rs st).resets
  unfolding serve_all
  serve_all-AreUsed [] st o k = k
  serve_all-AreUsed (r ∷ rs) st o k =
      serve_all-AreUsed rs (serve c r st) o.1 (serve-AreUsed r st o.0 k)

  none_unused : (ms : List MailToken) → AreUsed h ms → find (is_unused h) ms ≡ none
  none_unused [] k = refl
  none_unused (m ∷ ms) k = elim (Bool-cases (m.hash == h)) [
    | inl same ↦ rw (same, k.0 (ground (arith, same))) (none_unused ms k.1)
    | inr differs ↦ rw differs (none_unused ms k.1)
  ]

  -- The link that is used is the only one of its digest.
  spent_alone :
      (k : ℕ) (ms : List MailToken)
      → All (λ m. m.hash ≡ h → m.id ≡ k) ms
      → AreUsed h (update_where (has_mail_id k) use_mail ms)
  spent_alone k ms alone =
      All-update_where (λ m. m.hash ≡ h → m.id ≡ k) (λ m. m.hash ≡ h → m.used ≡ true)
        (has_mail_id k) use_mail
        (λ m one. elim (Bool-cases (m.id == k)) [
          | inl e ↦ rw e (λ same. refl)
          | inr e ↦ rw e (λ same. absurd (ground (arith, one same, e)))
        ])
        ms alone

-- Every token of the user is revoked.
abbrev pub SignedOut : ℕ → List RefreshToken → Type 0
SignedOut user ts = All (λ t. t.user ≡ user → t.revoked ≡ true) ts

ended_one_by_one :
    (user : ℕ) (ts : List RefreshToken)
    → SignedOut user (update_where (is_live_token_of user) revoke_token ts)
ended_one_by_one user [] = tt
ended_one_by_one user (t ∷ ts) = ((λ same. ground (arith, same)), ended_one_by_one user ts)

module _ (c : Setup) (raw p : ℕ) (m : MailToken) (u : User) (st : Identity) where
  granted_reset :
      find (is_unused (c.digest raw)) st.resets ≡ some m
      → ltb m.expires_at st.now ≡ false
      → find (has_id m.user) st.users ≡ some u
      → u.deleted ≡ false
      → reset_password c raw p st ≡ (granted tt, reset_with c m p st)
  unfolding reset_password
  granted_reset e early there kept = rw (e, reset_password, early, there, kept) refl

  password_set :
      find (has_id m.user) st.users ≡ some u
      → u.deleted ≡ false
      → find (has_id m.user) (reset_with c m p st).users
        ≡ some (with_password (c.hash_password p) u)
  unfolding reset_with update_user_row revoke_where
  password_set there kept =
      find-update_any (has_id m.user) (is_live_user m.user) (with_password (c.hash_password p))
        (λ y. refl) u st.users there
      ∙ ground (arith, kept, find_passes (has_id m.user) st.users there)

  tokens_ended : SignedOut m.user (reset_with c m p st).tokens
  unfolding reset_with update_user_row revoke_where
  tokens_ended = ended_one_by_one m.user st.tokens

  link_spent :
      All (λ x. x.hash ≡ c.digest raw → x.id ≡ m.id) st.resets
      → AreUsed (c.digest raw) (reset_with c m p st).resets
  unfolding reset_with update_user_row revoke_where
  link_spent alone = spent_alone c (c.digest raw) m.id st.resets alone

  refused_when_spent :
      (p' : ℕ) (later : Identity)
      → AreUsed (c.digest raw) later.resets
      → (reset_password c raw p' later).0 ≡ refused invalid_link
  unfolding reset_password
  refused_when_spent p' later k =
      rw (none_unused c (c.digest raw) later.resets k, reset_password) refl

  -- A reset link that is unused, alone with its digest, not expired and of an account that is not
  -- deleted resets the password, and afterwards every refresh token of the account is revoked and
  -- the account, where its id is its own, has the new password. Whatever requests follow, as long
  -- as none draws a link with the same digest, the link is refused.
  pub reset_once :
      (p' : ℕ) (rs : List Request)
      → find (is_unused (c.digest raw)) st.resets ≡ some m
      → All (λ x. x.hash ≡ c.digest raw → x.id ≡ m.id) st.resets
      → ltb m.expires_at st.now ≡ false
      → find (has_id m.user) st.users ≡ some u
      → u.deleted ≡ false
      → All (DrawsOther c.digest (c.digest raw)) rs
      → ((reset_password c raw p st).0 ≡ granted tt)
        × SignedOut m.user ((reset_password c raw p st).1).tokens
        × (find (has_id m.user) ((reset_password c raw p st).1).users
            ≡ some (with_password (c.hash_password p) u))
        × ((reset_password c raw p' (serve_all c rs (reset_password c raw p st).1)).0
            ≡ refused invalid_link)
  reset_once p' rs e alone early there kept o = rw (granted_reset e early there kept) (
    refl,
    tokens_ended,
    password_set there kept,
    refused_when_spent p' _
        (serve_all-AreUsed c (c.digest raw) rs (reset_with c m p st) o (link_spent alone)),
  )
