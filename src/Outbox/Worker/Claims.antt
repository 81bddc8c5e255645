-- ===== src/Outbox/Worker/Claims.antt =====
-- What two workers claim that have read overlapping rows.
use biz360_sme_erp_e_tims.Base.{ℕ, Bool, true, ◌≡◌, ◌≢◌, List, [], ◌∷◌, ◌==◌, count_where, arith}
use biz360_sme_erp_e_tims.Store.{OutboxEvent}
use biz360_sme_erp_e_tims.Outbox.Worker.{
  is_pending, among, holds, in_hand, is_claimable, flip, reread, claim,
}

abbrev pub waits : OutboxEvent → Bool
waits e = is_pending e.status

among-id :
    (due : List OutboxEvent) (a k : ℕ) → (a == k) ≡ true → among due k ≡ true → among due a ≡ true
among-id [] a k q h = h
among-id (e ∷ es) a k q h = ground (arith, among-id es a k)

holds-id :
    (p : OutboxEvent → Bool) (rows : List OutboxEvent) (a k : ℕ)
    → (a == k) ≡ true
    → holds p k rows ≡ true
    → holds p a rows ≡ true
holds-id p [] a k q h = h
holds-id p (e ∷ es) a k q h = ground (arith, holds-id p es a k)

-- A pending row of the claim is processing after it.
flipped :
    (now k : ℕ) (due rows : List OutboxEvent)
    → among due k ≡ true
    → holds waits k rows ≡ true
    → holds in_hand k (flip now due rows) ≡ true
unfolding flip
flipped now k due [] d h = h
flipped now k due (e ∷ es) d h = ground (arith, flipped now k due es d, among-id due e.id k)

-- A row that is processing stays so.
flip-keeps :
    (now k : ℕ) (due rows : List OutboxEvent)
    → holds in_hand k rows ≡ true
    → holds in_hand k (flip now due rows) ≡ true
unfolding flip
flip-keeps now k due [] h = h
flip-keeps now k due (e ∷ es) h = ground (arith, flip-keeps now k due es)

-- What passes the second read.
among-reread :
    (k : ℕ) (due rows : List OutboxEvent)
    → among due k ≡ true
    → holds in_hand k rows ≡ true
    → among (reread due rows) k ≡ true
unfolding reread
among-reread k [] rows d h = d
among-reread k (e ∷ es) rows d h =
    ground (arith, among-reread k es rows, holds-id in_hand rows e.id k)

claimed :
    (now k : ℕ) (due rows : List OutboxEvent)
    → count_where (is_claimable due) rows ≢ 0
    → among due k ≡ true
    → holds in_hand k (flip now due rows) ≡ true
    → among (claim now due rows).0 k ≡ true
unfolding claim
claimed now k due rows n d h = ground (arith, among-reread k due (flip now due rows) d h)

claim-flip :
    (now : ℕ) (due rows : List OutboxEvent)
    → count_where (is_claimable due) rows ≢ 0
    → (claim now due rows).1 ≡ flip now due rows
unfolding claim
claim-flip now due rows n = ground arith

-- Where two workers have both read a row that is pending, the first finds a row to claim, and the
-- second, which claims after it, still finds one of its own, both are handed the common row.
pub claimed_twice :
    (now later k : ℕ) (mine yours rows : List OutboxEvent)
    → among mine k ≡ true
    → among yours k ≡ true
    → holds waits k rows ≡ true
    → count_where (is_claimable mine) rows ≢ 0
    → count_where (is_claimable yours) (claim now mine rows).1 ≢ 0
    → (among (claim now mine rows).0 k ≡ true)
      × (among (claim later yours (claim now mine rows).1).0 k ≡ true)
claimed_twice now later k mine yours rows m y w one two =
    let mine_has : holds in_hand k (flip now mine rows) ≡ true = flipped now k mine rows m w in
    let after : holds in_hand k (claim now mine rows).1 ≡ true =
      rw (claim-flip now mine rows one) mine_has in
    (
      claimed now k mine rows one m mine_has,
      claimed later k yours (claim now mine rows).1 two y
          (flip-keeps later k yours (claim now mine rows).1 after),
    )
