-- ===== src/Access/Dead.antt =====
-- A family of refresh tokens none of which is live, and the operations on tokens that keep it so.
use biz360_sme_erp_e_tims.Base.{
  ℕ, ◌<◌, Bool, true, ◌≡◌, refl, Option, Option-cases, none, some, some-injective, List, ◌==◌, ltb,
  All, All-find, All-update_where, find, update_where, Bool-cases, inl, inr, arith,
}
use biz360_sme_erp_e_tims.Access.{User, RefreshToken, Identity, Setup, has_id}
use biz360_sme_erp_e_tims.Access.Rules.{either}
use biz360_sme_erp_e_tims.Access.Tokens.{
  revoke_token, has_hash, has_token_id, replace_token, revoke_where, issue_refresh_token, exchange,
  rotate_read, rotate,
}

-- A token of the family is revoked.
abbrev pub IsSpentIn : ℕ → RefreshToken → Type 0
IsSpentIn f t = t.family ≡ f → t.revoked ≡ true

-- No token of the family is live, and no new family gets its name.
pub record IsDead (f : ℕ) (st : Identity) : Type 0 where
  pub known : f < st.next_id
  pub spent : All (IsSpentIn f) st.tokens

module _ (f : ℕ) where
  pub spent_after_revoke :
      (p : RefreshToken → Bool) (ts : List RefreshToken)
      → All (IsSpentIn f) ts
      → All (IsSpentIn f) (update_where p revoke_token ts)
  spent_after_revoke p ts h =
      All-update_where (IsSpentIn f) (IsSpentIn f) p revoke_token
        (λ t k. elim (Bool-cases (p t)) [ inl e ↦ rw e (λ same. refl) | inr e ↦ rw e k ]) ts h

  pub revoke_where-IsDead :
      (p : RefreshToken → Bool) (st : Identity) → IsDead f st → IsDead f (revoke_where p st)
  unfolding revoke_where
  revoke_where-IsDead p st h = record {
    known = h.known;
    spent = spent_after_revoke p st.tokens h.spent;
  }

  -- The two ways in which a row is made: in a new family, or in one that is not dead.
  pub issue-IsDead :
      (c : Setup) (user org : ℕ) (family : Option ℕ) (raw : ℕ) (st : Identity)
      → (family ≡ some f → ⊥)
      → IsDead f st
      → IsDead f (issue_refresh_token c user org family raw st)
  unfolding issue_refresh_token
  issue-IsDead c user org none raw st other h = record {
    known = omega (arith, h.known);
    spent = ((λ same. absurd (omega (arith, h.known, same))), h.spent);
  }
  issue-IsDead c user org (some g) raw st other h = record {
    known = omega (arith, h.known);
    spent = ((λ same. absurd (other (rw same refl))), h.spent);
  }

  pub replaced-IsDead :
      (k n : ℕ) (st : Identity)
      → IsDead f st
      → IsDead f (record st { tokens = update_where (has_token_id k) (replace_token n) st.tokens })
  replaced-IsDead k n st h = record {
    known = h.known;
    spent =
        All-update_where (IsSpentIn f) (IsSpentIn f) (has_token_id k) (replace_token n)
          (λ t spent. elim (Bool-cases (t.id == k)) [
            | inl e ↦ rw e (λ same. refl)
            | inr e ↦ rw e spent
          ])
          st.tokens h.spent;
  }

  -- A live row that is found is of another family.
  pub rotate_read-IsDead :
      (c : Setup) (t : RefreshToken) (u : User) (raw : ℕ) (st : Identity)
      → IsSpentIn f t
      → IsDead f st
      → IsDead f ((rotate_read c t u raw st).1)
  unfolding rotate_read exchange
  rotate_read-IsDead c t u raw st spent h =
      either (IsDead f) u.deleted _ _ h (elim (Bool-cases t.revoked) [
        | inl e ↦ rw e (revoke_where-IsDead _ st h)
        | inr live ↦ rw live (
            either (IsDead f) (ltb t.expires_at st.now) _ _ (revoke_where-IsDead _ st h) (
              replaced-IsDead t.id st.next_id _ (
                issue-IsDead c t.user t.org (some t.family) raw st
                  (λ same. let revoked = spent (some-injective _ _ same) in cc) h)))
      ])

  pub rotate-IsDead :
      (c : Setup) (presented raw : ℕ) (st : Identity)
      → IsDead f st
      → IsDead f ((rotate c presented raw st).1)
  unfolding rotate
  rotate-IsDead c presented raw st h =
      elim (Option-cases (find (has_hash (c.digest presented)) st.tokens)) [
        | inl e ↦ rw (e, rotate) h
        | inr (t, e) ↦
            rw (e, rotate)
              (elim (Option-cases (find (has_id t.user) st.users)) [
                | inl missing ↦ rw missing h
                | inr (u, there) ↦ rw there (
                    rotate_read-IsDead c t u raw st (All-find (IsSpentIn f) _ st.tokens h.spent e).0
                      h)
              ])
      ]
