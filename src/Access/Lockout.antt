-- ===== src/Access/Lockout.antt =====
-- About the lockout after wrong passwords.
use biz360_sme_erp_e_tims.Base.{
  ℕ, ◌+◌, ◌<◌, true, false, ◌≡◌, refl, sym, ap, ◌∙◌, some, List, [], ◌∷◌, ◌==◌, leb, All, find,
  find-update_any, update_where, length, Bool-cases, inl, inr, arith,
}
use biz360_sme_erp_e_tims.Access.{
  User, Identity, Setup, refused, has_email, is_live_user, invalid_credentials, locked,
}
use biz360_sme_erp_e_tims.Access.Login.{
  is_locked, update_user_row, lock_out, with_failed, record_failed_login, login_read, login,
}

abbrev pub wait : ℕ → Identity → Identity
wait t st = record st { now = st.now + t }

module _ (c : Setup) where
  -- Logins one after the other, each with a password and the raw value of a token.
  unfoldable pub guess_all : ℕ → List (ℕ × ℕ) → Identity → Identity
  guess_all email [] st = st
  guess_all email ((p, raw) ∷ gs) st = guess_all email gs ((login c email p raw st).1)

  -- Logins that have all read the same row of the account before one of them writes.
  unfoldable pub guess_at_once : User → List (ℕ × ℕ) → Identity → Identity
  guess_at_once u [] st = st
  guess_at_once u ((p, raw) ∷ gs) st = guess_at_once u gs ((login_read c u p raw st).1)

  abbrev pub AreWrong : User → List (ℕ × ℕ) → Type 0
  AreWrong u gs = All (λ g. c.verify u.password g.0 ≡ false) gs

  wrong_password :
      (u : User) (p raw : ℕ) (st : Identity)
      → u.deleted ≡ false
      → is_locked st.now u.locked_until ≡ false
      → c.verify u.password p ≡ false
      → login_read c u p raw st
        ≡ (refused invalid_credentials, record_failed_login c u.id u.failed st)
  unfolding login_read
  wrong_password u p raw st d l w = rw (d, l, w) refl

  login-found :
      (email p raw : ℕ) (u : User) (st : Identity)
      → find (has_email email) st.users ≡ some u
      → login c email p raw st ≡ login_read c u p raw st
  unfolding login
  login-found email p raw u st e = rw (e, login) refl

  -- The row of the account after an update under its id.
  found_after :
      (email : ℕ) (u : User) (f : User → User) (st : Identity)
      → ((x : User) → (f x).email ≡ x.email)
      → u.deleted ≡ false
      → find (has_email email) st.users ≡ some u
      → find (has_email email) (update_user_row u.id f st).users ≡ some (f u)
  unfolding update_user_row
  found_after email u f st keep d e =
      find-update_any (has_email email) (is_live_user u.id) f (λ y. ap (λ k. k == email) (keep y)) u
        st.users e
      ∙ ground (arith, d)

  -- The account is there, and locked up to a time.
  abbrev pub IsLockedUntil : ℕ → ℕ → Identity → Type 0
  IsLockedUntil email k st =
      (x : User) × (find (has_email email) st.users ≡ some x)
      × (x.deleted ≡ false)
      × (x.locked_until ≡ some k)

  guess_first :
      (email p raw : ℕ) (u : User) (gs : List (ℕ × ℕ)) (st : Identity)
      → find (has_email email) st.users ≡ some u
      → u.deleted ≡ false
      → is_locked st.now u.locked_until ≡ false
      → c.verify u.password p ≡ false
      → guess_all email ((p, raw) ∷ gs) st
        ≡ guess_all email gs (record_failed_login c u.id u.failed st)
  unfolding guess_all
  guess_first email p raw u gs st e d l w =
      ap (λ r. guess_all email gs r.1)
        (login-found email p raw u st e ∙ wrong_password u p raw st d l w)

  last_guess :
      (user n : ℕ) (st : Identity)
      → c.threshold ≡ n + 1
      → record_failed_login c user n st ≡ update_user_row user (lock_out (st.now + c.lockout_ms)) st
  unfolding record_failed_login
  last_guess user n st h =
      let full : leb c.threshold (n + 1) ≡ true = ground (arith, h) in
      rw (full, record_failed_login) refl

  early_guess :
      (user n : ℕ) (st : Identity)
      → n + 1 < c.threshold
      → record_failed_login c user n st ≡ update_user_row user (with_failed (n + 1)) st
  unfolding record_failed_login
  early_guess user n st h =
      let more : leb c.threshold (n + 1) ≡ false = ground (arith, h) in
      rw (more, record_failed_login) refl

  locked_out :
      (email : ℕ) (u : User) (gs : List (ℕ × ℕ)) (st : Identity)
      → find (has_email email) st.users ≡ some u
      → u.deleted ≡ false
      → is_locked st.now u.locked_until ≡ false
      → AreWrong u gs
      → u.failed + length gs ≡ c.threshold
      → u.failed < c.threshold
      → IsLockedUntil email (st.now + c.lockout_ms) (guess_all email gs st)
        × ((guess_all email gs st).now ≡ st.now)
  unfolding update_user_row guess_all
  locked_out email u [] st e d l w n lt = absurd (omega arith)
  locked_out email u ((p, raw) ∷ []) st e d l w n lt =
      rw
        (
          guess_first email p raw u [] st e d l w.0,
          last_guess u.id u.failed st (omega arith),
          guess_all,
        )
        (
          (_, found_after email u (lock_out (st.now + c.lockout_ms)) st (λ x. refl) d e, d, refl),
          refl,
        )
  locked_out email u ((p, raw) ∷ (q, raw') ∷ gs) st e d l w n lt =
      rw
        (
          guess_first email p raw u ((q, raw') ∷ gs) st e d l w.0,
          early_guess u.id u.failed st (omega arith),
        )
        (locked_out email (with_failed (u.failed + 1) u) ((q, raw') ∷ gs)
          (update_user_row u.id (with_failed (u.failed + 1)) st)
          (found_after email u (with_failed (u.failed + 1)) st (λ x. refl) d e) d l w.1
          (omega arith) (omega arith))

  refused_while_locked :
      (email k p raw : ℕ) (st : Identity)
      → st.now < k
      → IsLockedUntil email k st
      → login c email p raw st ≡ (refused locked, st)
  unfolding login_read
  refused_while_locked email k p raw st early (x, e, d, until) =
      let shut : is_locked st.now x.locked_until ≡ true = rw until (ground (arith, early)) in
      login-found email p raw x st e ∙ rw (d, shut, login_read) refl

  -- An account that is not deleted and not locked, and that has as many wrong passwords left as are
  -- tried one after the other, at least one, is locked afterwards: until the lockout time has
  -- passed, each login, also one with the right password, is refused and changes nothing.
  pub guesses_lock_out :
      (email : ℕ) (u : User) (gs : List (ℕ × ℕ)) (t p raw : ℕ) (st : Identity)
      → find (has_email email) st.users ≡ some u
      → u.deleted ≡ false
      → is_locked st.now u.locked_until ≡ false
      → AreWrong u gs
      → u.failed + length gs ≡ c.threshold
      → u.failed < c.threshold
      → t < c.lockout_ms
      → login c email p raw (wait t (guess_all email gs st))
        ≡ (refused locked, wait t (guess_all email gs st))
  guesses_lock_out email u gs t p raw st e d l w n lt early =
      let (shut, same) = locked_out email u gs st e d l w n lt in
      refused_while_locked email (st.now + c.lockout_ms) p raw (wait t (guess_all email gs st))
        (omega (arith, same)) shut

  update_again :
      (id : ℕ) (f : User → User) (us : List User)
      → ((x : User) → f (f x) ≡ f x)
      → update_where (is_live_user id) f (update_where (is_live_user id) f us)
        ≡ update_where (is_live_user id) f us
  update_again id f [] once = refl
  update_again id f (x ∷ xs) once = elim (Bool-cases (is_live_user id x)) [
    | inl t ↦ elim (Bool-cases (is_live_user id (f x))) [
      | inl t' ↦ rw (t, t', once x, update_again id f xs once) refl
      | inr t' ↦ rw (t, t', update_again id f xs once) refl
    ]
    | inr t ↦ rw (t, t, update_again id f xs once) refl
  ]

  failed_again :
      (user n : ℕ) (st : Identity)
      → record_failed_login c user n (record_failed_login c user n st)
        ≡ record_failed_login c user n st
  unfolding record_failed_login update_user_row
  failed_again user n st = elim (Bool-cases (leb c.threshold (n + 1))) [
    | inl e ↦
        rw (e, record_failed_login)
          (ap (λ us. record st { users = us }) (update_again user _ st.users (λ x. refl)))
    | inr e ↦
        rw (e, record_failed_login)
          (ap (λ us. record st { users = us }) (update_again user _ st.users (λ x. refl)))
  ]

  failed_keeps_now : (user n : ℕ) (st : Identity) → (record_failed_login c user n st).now ≡ st.now
  unfolding record_failed_login update_user_row
  failed_keeps_now user n st = ground arith

  further_guesses :
      (u : User) (gs : List (ℕ × ℕ)) (st : Identity)
      → u.deleted ≡ false
      → is_locked st.now u.locked_until ≡ false
      → AreWrong u gs
      → guess_at_once u gs (record_failed_login c u.id u.failed st)
        ≡ record_failed_login c u.id u.failed st
  unfolding guess_at_once
  further_guesses u [] st d l w = refl
  further_guesses u ((p, raw) ∷ gs) st d l w =
      ap (λ r. guess_at_once u gs r.1)
        (wrong_password u p raw (record_failed_login c u.id u.failed st) d
          (rw (failed_keeps_now u.id u.failed st) l) w.0)
      ∙ ap (guess_at_once u gs) (failed_again u.id u.failed st)
      ∙ further_guesses u gs st d l w.1

  -- Any number of wrong passwords, at least one, that are tried at once on an account that is not
  -- deleted and not locked, all having read its row before one of them writes, leave the state that
  -- a single one of them leaves: they count as one.
  pub guesses_count_once :
      (u : User) (p raw : ℕ) (gs : List (ℕ × ℕ)) (st : Identity)
      → u.deleted ≡ false
      → is_locked st.now u.locked_until ≡ false
      → AreWrong u ((p, raw) ∷ gs)
      → guess_at_once u ((p, raw) ∷ gs) st ≡ guess_at_once u ((p, raw) ∷ []) st
  unfolding guess_at_once
  guesses_count_once u p raw gs st d l w =
      let first = ap (λ r. r.1) (wrong_password u p raw st d l w.0) in
      ap (guess_at_once u gs) first ∙ further_guesses u gs st d l w.1 ∙ sym first
