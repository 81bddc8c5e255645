-- ===== src/Access/Fork.antt =====
-- About two exchanges of one refresh token that have both read it.
use biz360_sme_erp_e_tims.Base.{
  ℕ, suc, ◌+◌, ◌<◌, ◌≤◌, Bool, false, not, ◌&&◌, ◌≡◌, refl, ap, ◌∙◌, some, List, [], ◌∷◌, ◌==◌, ltb,
  count_where, update_where, arith,
}
use biz360_sme_erp_e_tims.Access.{User, RefreshToken, Identity, Setup, granted}
use biz360_sme_erp_e_tims.Access.Tokens.{
  has_token_id, replace_token, issue_refresh_token, exchange, rotate_read,
}

-- A token of the family that may still be exchanged.
abbrev pub is_live_in : ℕ → RefreshToken → Bool
is_live_in f t = t.family == f && not t.revoked

module _ (c : Setup) (t : RefreshToken) (u : User) where
  read_live :
      (raw : ℕ) (st : Identity)
      → u.deleted ≡ false
      → t.revoked ≡ false
      → ltb t.expires_at st.now ≡ false
      → rotate_read c t u raw st ≡ exchange c t u raw st
  unfolding rotate_read
  read_live raw st d r e = rw (d, r, e) refl

  -- The row of the next token is live, and rows of other ids are as they were.
  one_more :
      (raw : ℕ) (k : ℕ) (st : Identity)
      → t.id < st.next_id
      → k
        ≤ count_where
            (is_live_in t.family)
            (update_where (has_token_id t.id) (replace_token st.next_id) st.tokens)
      → k + 1 ≤ count_where (is_live_in t.family) ((exchange c t u raw st).1).tokens
  unfolding exchange issue_refresh_token
  one_more raw k st old h = ground arith

  again :
      (m n : ℕ) (ts : List RefreshToken)
      → count_where (is_live_in t.family) (
          update_where
            (has_token_id t.id)
            (replace_token m)
            (update_where (has_token_id t.id) (replace_token n) ts))
        ≡ count_where (is_live_in t.family) (update_where (has_token_id t.id) (replace_token n) ts)
  again m n [] = refl
  again m n (x ∷ xs) = ground (arith, again m n xs)

  two_live :
      (raw raw' : ℕ) (st : Identity)
      → t.id < st.next_id
      → 2
        ≤ count_where
            (is_live_in t.family)
            ((exchange c t u raw' (exchange c t u raw st).1).1).tokens
  unfolding exchange issue_refresh_token
  two_live raw raw' st old =
      let first = one_more raw 0 st old (omega arith) in
      let twice =
        again (suc (suc st.next_id)) st.next_id
          (issue_refresh_token c t.user t.org (some t.family) raw st).tokens in
      one_more raw' 1 ((exchange c t u raw st).1) (omega arith) (omega (arith, first, twice))

  exchange_answers :
      (raw : ℕ) (st : Identity)
      → (exchange c t u raw st).0 ≡ granted (record { user = u.id; raw = raw; row = st.next_id })
  unfolding exchange
  exchange_answers raw st = refl

  next_after :
      (raw : ℕ) (st : Identity)
      → (((exchange c t u raw st).1).next_id ≡ suc (suc st.next_id))
        × (((exchange c t u raw st).1).now ≡ st.now)
  unfolding exchange issue_refresh_token
  next_after raw st = (refl, refl)

  -- Where two exchanges have both read the row of a token, which is live, not expired and of an
  -- account that is not deleted, both are granted, and afterwards the family has at least two
  -- tokens that may be exchanged.
  pub exchanged_twice :
      (raw raw' : ℕ) (st : Identity)
      → u.deleted ≡ false
      → t.revoked ≡ false
      → ltb t.expires_at st.now ≡ false
      → t.id < st.next_id
      → ((rotate_read c t u raw st).0
          ≡ granted (record { user = u.id; raw = raw; row = st.next_id }))
        × ((rotate_read c t u raw' (rotate_read c t u raw st).1).0
            ≡ granted (record { user = u.id; raw = raw'; row = suc (suc st.next_id) }))
        × (2
            ≤ count_where
                (is_live_in t.family)
                ((rotate_read c t u raw' (rotate_read c t u raw st).1).1).tokens)
  exchanged_twice raw raw' st d r e old =
      let (grown, same) = next_after raw st in
      let second = read_live raw' ((exchange c t u raw st).1) d r (rw same e) in
      rw (read_live raw st d r e, second)
        (
          exchange_answers raw st,
          exchange_answers raw' _
              ∙ ap (λ k. granted (record { user = u.id; raw = raw'; row = k })) grown,
          two_live raw raw' st old,
        )
