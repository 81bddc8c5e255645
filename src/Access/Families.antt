-- ===== src/Access/Families.antt =====
-- About a family of refresh tokens after one of its spent tokens was presented again.
use biz360_sme_erp_e_tims.Base.{
  ℕ, ◌+◌, ◌<◌, true, false, not, ◌&&◌, ◌≡◌, refl, ap, Option-cases, none, some, List, [], ◌∷◌, ltb,
  leb, All, All-find, find, update_where, Bool-cases, inl, inr, arith,
}
use biz360_sme_erp_e_tims.Access.{
  User, RefreshToken, MailToken, Identity, Setup, Answer, refused, granted, has_id, has_email,
  is_suspended, is_pending, is_admin, reuse_detected,
}
use biz360_sme_erp_e_tims.Access.Rules.{either, looked_up}
use biz360_sme_erp_e_tims.Access.Tokens.{
  revoke_token, has_hash, is_in_family, revoke_where, rotate_read, rotate, revoke, revoke_session,
  revoke_all_for_user,
}
use biz360_sme_erp_e_tims.Access.Login.{
  is_locked, issue_session_pair, record_failed_login, login_read, login, update_user_row,
  is_live_member, create_member, admin_update, remove_user,
}
use biz360_sme_erp_e_tims.Access.Reset.{
  request_password_reset, reset_with, reset_password, verify_email,
}
use biz360_sme_erp_e_tims.Access.Requests.{
  Request, logs_in, refreshes, logs_out, revokes_session, revokes_all, asks_reset, resets_password,
  verifies_email, adds_member, updates_member, removes_member, waits, serve, serve_all,
}
use biz360_sme_erp_e_tims.Access.Dead.{
  IsSpentIn, IsDead, spent_after_revoke, revoke_where-IsDead, issue-IsDead, rotate-IsDead,
}

abbrev pub IsRefused : {A : Type 0} → Answer A → Type 0
IsRefused (refused e) = Unit
IsRefused (granted a) = ⊥

module _ (f : ℕ) where
  pair-IsDead :
      (c : Setup) (user raw : ℕ) (st : Identity)
      → IsDead f st
      → IsDead f ((issue_session_pair c user raw st).1)
  unfolding issue_session_pair
  pair-IsDead c user raw st h = elim (Option-cases (find (has_id user) st.users)) [
    | inl e ↦ rw (e, issue_session_pair) h
    | inr (u, e) ↦
        rw (e, issue_session_pair) (issue-IsDead f c user u.org none raw st (λ same. cc) h)
  ]

  update_user-IsDead :
      (id : ℕ) (g : User → User) (st : Identity) → IsDead f st → IsDead f (update_user_row id g st)
  unfolding update_user_row
  update_user-IsDead id g st h = record { known = h.known; spent = h.spent }

  failed_login-IsDead :
      (c : Setup) (user n : ℕ) (st : Identity)
      → IsDead f st
      → IsDead f (record_failed_login c user n st)
  unfolding record_failed_login
  failed_login-IsDead c user n st h = elim (Bool-cases (leb c.threshold (n + 1))) [
    | inl e ↦ rw e (update_user-IsDead user _ st h)
    | inr e ↦ rw e (update_user-IsDead user _ st h)
  ]

  login-IsDead :
      (c : Setup) (email password raw : ℕ) (st : Identity)
      → IsDead f st
      → IsDead f ((login c email password raw st).1)
  unfolding login login_read
  login-IsDead c email password raw st h = elim (Option-cases (find (has_email email) st.users)) [
    | inl e ↦ rw (e, login) h
    | inr (u, e) ↦
        rw (e, login)
          (either (IsDead f) u.deleted _ _ h (
            either (IsDead f) (is_locked st.now u.locked_until) _ _ h (
              either (IsDead f) (not (c.verify u.password password)) _ _
                (failed_login-IsDead c u.id u.failed st h)
                (either (IsDead f) (is_suspended u.status) _ _ h (
                  either (IsDead f) (is_pending u.status && c.verification_required) _ _ h
                    (pair-IsDead c u.id raw _ (update_user-IsDead u.id _ st h)))))))
  ]

  reset_with-IsDead :
      (c : Setup) (m : MailToken) (password : ℕ) (st : Identity)
      → IsDead f st
      → IsDead f (reset_with c m password st)
  unfolding reset_with revoke_where update_user_row
  reset_with-IsDead c m password st h = record {
    known = h.known;
    spent = spent_after_revoke f _ st.tokens h.spent;
  }

  reset-IsDead :
      (c : Setup) (raw password : ℕ) (st : Identity)
      → IsDead f st
      → IsDead f ((reset_password c raw password st).1)
  unfolding reset_password
  reset-IsDead c raw password st h = looked_up (IsDead f) _ _ _ h λ (m : MailToken).
      either (IsDead f) (ltb m.expires_at st.now) _ _ h (
        looked_up (IsDead f) _ _ _ h
          λ (u : User). either (IsDead f) u.deleted _ _ h (reset_with-IsDead c m password st h))

  verify-IsDead :
      (c : Setup) (raw : ℕ) (st : Identity) → IsDead f st → IsDead f ((verify_email c raw st).1)
  unfolding verify_email update_user_row
  verify-IsDead c raw st h = looked_up (IsDead f) _ _ _ h λ (m : MailToken).
      either (IsDead f) (ltb m.expires_at st.now) _ _ h (
        looked_up (IsDead f) _ _ _ h λ (u : User).
          either (IsDead f) u.deleted _ _ h (record { known = h.known; spent = h.spent }))

  asked-IsDead :
      (c : Setup) (email raw : ℕ) (st : Identity)
      → IsDead f st
      → IsDead f (request_password_reset c email raw st)
  unfolding request_password_reset
  asked-IsDead c email raw st h = elim (Option-cases (find (has_email email) st.users)) [
    | inl e ↦ rw (e, request_password_reset) h
    | inr (u, e) ↦
        rw (e, request_password_reset)
          (elim (Bool-cases u.deleted) [
            | inl gone ↦ rw gone h
            | inr there ↦ rw there (record { known = omega (arith, h.known); spent = h.spent })
          ])
  ]

  -- No request brings a dead family back.
  serve-IsDead : (c : Setup) (r : Request) (st : Identity) → IsDead f st → IsDead f (serve c r st)
  unfolding serve create_member admin_update remove_user revoke revoke_session revoke_all_for_user
  serve-IsDead c (logs_in email password raw) st h = login-IsDead c email password raw st h
  serve-IsDead c (refreshes presented raw) st h = rotate-IsDead f c presented raw st h
  serve-IsDead c (logs_out presented) st h = revoke_where-IsDead f _ st h
  serve-IsDead c (revokes_session row org) st h = revoke_where-IsDead f _ st h
  serve-IsDead c (revokes_all user org) st h = revoke_where-IsDead f _ st h
  serve-IsDead c (asks_reset email raw) st h = asked-IsDead c email raw st h
  serve-IsDead c (resets_password raw password) st h = reset-IsDead c raw password st h
  serve-IsDead c (verifies_email raw) st h = verify-IsDead c raw st h
  serve-IsDead c (adds_member org email password role) st h =
      elim (Option-cases (find (is_live_member c org email) st.users)) [
        | inr (u, e) ↦ rw (e, serve, create_member) h
        | inl e ↦
            rw (e, serve, create_member)
              (elim (Option-cases (find (has_email email) st.users)) [
                | inr (u, there) ↦ rw there h
                | inl new ↦ rw new (record { known = omega (arith, h.known); spent = h.spent })
              ])
      ]
  serve-IsDead c (updates_member org target role status) st h =
      looked_up (IsDead f) _ _ _ h λ u. update_user-IsDead target _ st h
  serve-IsDead c (removes_member org target actor) st h = looked_up (IsDead f) _ _ _ h λ (u : User).
      either (IsDead f) (is_admin u.role && not (is_admin actor)) _ _ h
        (revoke_where-IsDead f _ _ (update_user-IsDead target _ st h))
  serve-IsDead c (waits t) st h = record { known = h.known; spent = h.spent }

  serve_all-IsDead :
      (c : Setup) (rs : List Request) (st : Identity) → IsDead f st → IsDead f (serve_all c rs st)
  unfolding serve_all
  serve_all-IsDead c [] st h = h
  serve_all-IsDead c (r ∷ rs) st h = serve_all-IsDead c rs (serve c r st) (serve-IsDead c r st h)

  -- In a dead family nothing is exchanged.
  rotate_read-IsRefused :
      (c : Setup) (t : RefreshToken) (u : User) (raw : ℕ) (st : Identity)
      → t.revoked ≡ true
      → IsRefused ((rotate_read c t u raw st).0)
  unfolding rotate_read
  rotate_read-IsRefused c t u raw st e = elim (Bool-cases u.deleted) [
    | inl gone ↦ rw gone tt
    | inr there ↦ rw (there, e) tt
  ]

  rotate-IsRefused :
      (c : Setup) (presented raw : ℕ) (t : RefreshToken) (st : Identity)
      → find (has_hash (c.digest presented)) st.tokens ≡ some t
      → t.family ≡ f
      → IsDead f st
      → IsRefused ((rotate c presented raw st).0)
  unfolding rotate
  rotate-IsRefused c presented raw t st e same h =
      let revoked : t.revoked ≡ true = (All-find (IsSpentIn f) _ st.tokens h.spent e).0 same in
      rw (e, rotate)
        (elim (Option-cases (find (has_id t.user) st.users)) [
          | inl missing ↦ rw missing tt
          | inr (u, there) ↦ rw there (rotate_read-IsRefused c t u raw st revoked)
        ])

  family_ended :
      (ts : List RefreshToken) → All (IsSpentIn f) (update_where (is_in_family f) revoke_token ts)
  family_ended [] = tt
  family_ended (t ∷ ts) = ((λ same. ground (arith, same)), family_ended ts)

module _ (c : Setup) (presented : ℕ) (t : RefreshToken) (u : User) (st : Identity) where
  reused :
      (raw : ℕ)
      → find (has_hash (c.digest presented)) st.tokens ≡ some t
      → find (has_id t.user) st.users ≡ some u
      → u.deleted ≡ false
      → t.revoked ≡ true
      → rotate c presented raw st
        ≡ (refused reuse_detected, revoke_where (is_in_family t.family) st)
  unfolding rotate rotate_read
  reused raw e there live spent = rw (e, rotate, there, live, spent) refl

  -- A refresh token whose row is revoked, of an account that is not deleted, is refused when it is
  -- presented. After that, whatever requests are served and whatever time passes, a presented token
  -- whose row is of the same family is refused: none is ever exchanged again. The family is one
  -- whose name was handed out.
  pub reuse_ends_family :
      (raw presented' raw' : ℕ) (rs : List Request) (t' : RefreshToken)
      → find (has_hash (c.digest presented)) st.tokens ≡ some t
      → find (has_id t.user) st.users ≡ some u
      → u.deleted ≡ false
      → t.revoked ≡ true
      → t.family < st.next_id
      → find (has_hash (c.digest presented')) (serve_all c rs (rotate c presented raw st).1).tokens
        ≡ some t'
      → t'.family ≡ t.family
      → ((rotate c presented raw st).0 ≡ refused reuse_detected)
        × IsRefused ((rotate c presented' raw' (serve_all c rs (rotate c presented raw st).1)).0)
  unfolding revoke_where
  reuse_ends_family raw presented' raw' rs t' e there live spent known e' same =
      let first = reused raw e there live spent in
      let dead : IsDead t.family ((rotate c presented raw st).1) =
        rw first (record { known = known; spent = family_ended t.family st.tokens }) in
      (
        ap (λ r. r.0) first,
        rotate-IsRefused t.family c presented' raw' t' _ e' same
            (serve_all-IsDead t.family c rs _ dead),
      )
