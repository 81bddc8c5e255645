-- ===== src/Idempotency/Replay.antt =====
-- About a stored response, whatever happens in between, and about a repeat that comes too early.
use biz360_sme_erp_e_tims.Base.{
  ℕ, suc, ◌+◌, ◌≤◌, Bool, true, ◌&&◌, ◌≡◌, ◌≢◌, refl, ap, ◌∙◌, Option, Option-cases, none, some,
  some-injective, List, [], ◌∷◌, ◌==◌, All, find, find-update_any, find-keep_where, count_where,
  if◌then◌else◌, Bool-cases, inl, inr, arith,
}
use biz360_sme_erp_e_tims.Idempotency.{
  HttpRequest, KeyRow, Keys, Outcome, executes, answers, conflicts, is_key, has_row_id,
  has_other_id, with_response, is_live_key, abort, complete, claim_existing, claim, keyed,
  outcome_of, intercept,
}
use biz360_sme_erp_e_tims.Idempotency.Events.{
  Event, arrives, succeeds, fails, waits, step, run_events, ended,
}

none_is_some : {A : Type 0} (a : A) → ◌≡◌ {A = Option A} (some a) none → ⊥
none_is_some a h = cc

itself : (n : ℕ) → (n == n) ≡ true
itself n = ground arith

same_key : (o k org key : ℕ) → ((o == org) && (k == key)) ≡ true → (o ≡ org) × (k ≡ key)
same_key o k org key h = (ground (arith, h), ground (arith, h))

module _ {B : Type 0} (truthy : B → Bool) (digest : HttpRequest → ℕ) (ttl : ℕ) where
  -- The row of a key.
  abbrev pub HasKey : ℕ → ℕ → KeyRow B → Keys B → Type 0
  HasKey org key r st = find (is_key org key) st.rows ≡ some r

  claim-HasKey :
      (org key : ℕ) (r : KeyRow B) (o k hash expires : ℕ) (st : Keys B)
      → HasKey org key r st
      → HasKey org key r ((claim truthy o k hash expires st).1)
  unfolding claim
  claim-HasKey org key r o k hash expires st h = elim (Option-cases (find (is_key o k) st.rows)) [
    | inr (x, e) ↦ rw (e, claim) h
    | inl e ↦ elim (Bool-cases ((o == org) && (k == key))) [
      | inr differs ↦ rw (e, differs, claim) h
      | inl same ↦
          let (o_same, k_same) = same_key o k org key same in
          absurd (none_is_some r (rw (o_same, k_same, h) at e))
    ]
  ]

  intercept-HasKey :
      (org key : ℕ) (r : KeyRow B) (q : HttpRequest) (st : Keys B)
      → HasKey org key r st
      → HasKey org key r ((intercept truthy digest ttl q st).1)
  unfolding intercept
  intercept-HasKey org key r q st h = elim (Option-cases (keyed q)) [
    | inl e ↦ rw (e, intercept) h
    | inr ((o, k), e) ↦
        rw (e, intercept) (claim-HasKey org key r o k (digest q) (st.now + ttl) st h)
  ]

  complete-HasKey :
      (org key : ℕ) (r : KeyRow B) (id code : ℕ) (body : B) (st : Keys B)
      → HasKey org key r st
      → id ≢ r.id
      → HasKey org key r ((complete id code body st).1)
  unfolding complete abort
  complete-HasKey org key r id code body st h n =
      elim (Bool-cases (count_where (has_row_id id) st.rows == 0)) [
        | inl gone ↦
            rw (gone, complete)
              (find-keep_where (is_key org key) (has_other_id id) r st.rows h (ground (arith, n)))
        | inr there ↦
            rw (there, complete)
              (ground (
                arith,
                n,
                find-update_any (is_key org key) (has_row_id id) (with_response code body)
                    (λ y. refl) r st.rows h,
              ))
      ]

  abort-HasKey :
      (org key : ℕ) (r : KeyRow B) (id : ℕ) (st : Keys B)
      → HasKey org key r st
      → id ≢ r.id
      → HasKey org key r (abort id st)
  unfolding abort
  abort-HasKey org key r id st h n =
      find-keep_where (is_key org key) (has_other_id id) r st.rows h (ground (arith, n))

  run_events-HasKey :
      (org key : ℕ) (r : KeyRow B) (es : List (Event B)) (st : Keys B)
      → HasKey org key r st
      → All (λ (e : Event B). ended e ≢ some r.id) es
      → HasKey org key r (run_events truthy digest ttl es st)
  unfolding run_events step
  run_events-HasKey org key r [] st h n = h
  run_events-HasKey org key r (arrives q ∷ es) st h n =
      run_events-HasKey org key r es _ (intercept-HasKey org key r q st h) n.1
  run_events-HasKey org key r (succeeds id code body ∷ es) st h n =
      run_events-HasKey org key r es _
        (complete-HasKey org key r id code body st h (λ e. n.0 (ap some e))) n.1
  run_events-HasKey org key r (fails id ∷ es) st h n =
      run_events-HasKey org key r es _ (abort-HasKey org key r id st h (λ e. n.0 (ap some e))) n.1
  run_events-HasKey org key r (waits t ∷ es) st h n = run_events-HasKey org key r es _ h n.1

  live_row :
      (org key now : ℕ) (r : KeyRow B) (rows : List (KeyRow B))
      → find (is_key org key) rows ≡ some r
      → now ≤ r.expires_at
      → find (is_live_key truthy org key now) rows ≡ some r
  live_row org key now r [] h within = cc
  live_row org key now r (x ∷ xs) h within = elim (Bool-cases (is_key org key x)) [
    | inl found ↦
        let same : x ≡ r = some-injective _ _ (rw (found, find) at h) in
        rw (same, ← same, found) (ground (arith, within, same))
    | inr other_row ↦ rw other_row (live_row org key now r xs (rw other_row at h) within)
  ]

  -- The claim of a request on a row that has not expired.
  intercept_existing :
      (org key : ℕ) (r : KeyRow B) (q : HttpRequest) (st : Keys B)
      → HasKey org key r st
      → keyed q ≡ some (org, key)
      → st.now ≤ r.expires_at
      → intercept truthy digest ttl q st
        ≡ (outcome_of (claim_existing truthy (digest q) (some r)), st)
  unfolding intercept claim
  intercept_existing org key r q st h k within =
      rw (k, intercept, claim, h, live_row org key st.now r st.rows h within) refl

  stored_outcome :
      (r : KeyRow B) (hash code : ℕ) (body : B)
      → r.response ≡ some (code, body)
      → truthy body ≡ true
      → outcome_of (claim_existing truthy hash (some r))
        ≡ (if r.hash == hash then answers code body else conflicts)
  unfolding claim_existing
  stored_outcome r hash code body stored true_body = elim (Bool-cases (r.hash == hash)) [
    | inl t ↦ rw (t, stored, true_body) refl
    | inr t ↦ rw t refl
  ]

  -- While the row of a key is not expired, and no handler that runs under its claim ends, a stored
  -- response with a true body stays the answer to every write request with that key: whatever
  -- arrives, ends or waits in between, a request of the same digest is answered by it without its
  -- handler, and one of another digest is a conflict. Nothing is written.
  pub stored_response_replays :
      (org key code : ℕ) (body : B) (r : KeyRow B) (es : List (Event B)) (q : HttpRequest)
      (st : Keys B)
      → HasKey org key r st
      → r.response ≡ some (code, body)
      → truthy body ≡ true
      → All (λ (e : Event B). ended e ≢ some r.id) es
      → keyed q ≡ some (org, key)
      → (run_events truthy digest ttl es st).now ≤ r.expires_at
      → intercept truthy digest ttl q (run_events truthy digest ttl es st) ≡ (
        if r.hash == digest q then answers code body else conflicts,
        run_events truthy digest ttl es st,
      )
  stored_response_replays org key code body r es q st h stored true_body n k within =
      intercept_existing org key r q (run_events truthy digest ttl es st)
        (run_events-HasKey org key r es st h n) k within
      ∙ ap (λ (o : Outcome B). (o, run_events truthy digest ttl es st))
          (stored_outcome r (digest q) code body stored true_body)

  -- The row that the first claim of a key makes.
  abbrev new_row : ℕ → ℕ → HttpRequest → Keys B → KeyRow B
  new_row org key q st = record {
    id = st.next_id;
    org = org;
    key = key;
    hash = digest q;
    response = none;
    expires_at = st.now + ttl;
  }

  claims_first :
      (org key : ℕ) (q : HttpRequest) (st : Keys B)
      → keyed q ≡ some (org, key)
      → find (is_key org key) st.rows ≡ none
      → intercept truthy digest ttl q st ≡ (
        executes (some st.next_id),
        record st { next_id = suc st.next_id; rows = new_row org key q st ∷ st.rows },
      )
  unfolding intercept claim
  claims_first org key q st k absent = rw (k, intercept, claim, absent) refl

  first-HasKey :
      (org key : ℕ) (q : HttpRequest) (st : Keys B)
      → keyed q ≡ some (org, key)
      → find (is_key org key) st.rows ≡ none
      → HasKey org key (new_row org key q st) ((intercept truthy digest ttl q st).1)
  first-HasKey org key q st k absent =
      rw (claims_first org key q st k absent, itself org, itself key) refl

  -- A write request with a new key runs its handler. A repeat of it that arrives before that handler
  -- has ended, and before the key expires, runs the handler again, under the same claim, whatever
  -- else arrives or waits in between.
  pub early_repeat_executes :
      (org key : ℕ) (q : HttpRequest) (es : List (Event B)) (st : Keys B)
      → keyed q ≡ some (org, key)
      → find (is_key org key) st.rows ≡ none
      → All (λ (e : Event B). ended e ≢ some st.next_id) es
      → (run_events truthy digest ttl (arrives q ∷ es) st).now ≤ st.now + ttl
      → ((intercept truthy digest ttl q st).0 ≡ executes (some st.next_id))
        × ((intercept truthy digest ttl q (run_events truthy digest ttl (arrives q ∷ es) st)).0
            ≡ executes (some st.next_id))
  unfolding run_events step claim_existing
  early_repeat_executes org key q es st k absent n within = (
    ap (λ (p : Outcome B × Keys B). p.0) (claims_first org key q st k absent),
    ap (λ (p : Outcome B × Keys B). p.0)
          (intercept_existing org key (new_row org key q st) q
            (run_events truthy digest ttl (arrives q ∷ es) st)
            (run_events-HasKey org key (new_row org key q st) es
              ((intercept truthy digest ttl q st).1) (first-HasKey org key q st k absent) n)
            k within)
        ∙ rw (itself (digest q)) refl,
  )
