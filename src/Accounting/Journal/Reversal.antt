-- ===== src/Accounting/Journal/Reversal.antt =====
-- About the balances that the reports draw from posted entries, after an entry is reversed.
use biz360_sme_erp_e_tims.Base.{
  ℕ, true, false, ◌≡◌, ◌≢◌, ◌<◌, refl, ◌==◌, Option, none, some, some-injective, List, [], ◌∷◌, map,
  find, update_where, All, All-find, All-map, find_passes, sum_of, sum_of-append, if◌then◌else◌,
  arith, Bool-cases, Option-cases, inl, inr, sym, ◌∙◌, ap,
}
use biz360_sme_erp_e_tims.Base.Int.{
  ℤ, pos, ◌+ℤ◌, ◌-ℤ◌, int_laws, eq_of_parts, pos_part, neg_part, zero-+ℤ, add_zeros, add_under,
}
use biz360_sme_erp_e_tims.Result.{ok, Ensures, Result-cases, Ensures-map}
use biz360_sme_erp_e_tims.Store.{
  Account, EntryLine, EntryStatus, JournalEntry, Db, run, modify, or_throw, pure, throw, ◌>>=◌,
  ◌>>◌,
}
use biz360_sme_erp_e_tims.Store.Leads.{After-step}
use biz360_sme_erp_e_tims.Result.{conflict, already_reversed}
use mathlib.Core.Path.{subst}
use biz360_sme_erp_e_tims.Store.Keeps.{After}
use biz360_sme_erp_e_tims.Ledger.{
  PostLine, Resolved, is_account, take_line, nothing_resolved, resolve_line, resolve_lines,
  add_entry, post,
}
use biz360_sme_erp_e_tims.Ledger.Books.{post-booked}
use biz360_sme_erp_e_tims.Ledger.Documents.Mirror.{line_net, net}
use biz360_sme_erp_e_tims.Accounting.Journal.{
  is_entry, is_posted, is_reversible, with_status, mirror_line, reversal_of_entry, reversible_entry,
  reverse_entry,
}

-- What a row adds to the debit side of the account of a code, less its credit side.
abbrev pub row_net : ℕ → EntryLine → ℤ
row_net code l = if l.account_code == code then l.debit -ℤ l.credit else pos 0

abbrev pub entry_net : ℕ → JournalEntry → ℤ
entry_net code e = sum_of (row_net code) e.lines

-- As `accountBalances` counts it: an entry that is posted, and no other.
abbrev pub counted_net : ℕ → JournalEntry → ℤ
counted_net code e = if is_posted e.status then entry_net code e else pos 0

abbrev pub posted_net : ℕ → List JournalEntry → ℤ
posted_net code = sum_of (counted_net code)

resolve_line-net :
    (accounts : List Account) (org code : ℕ) (l : PostLine) {e : EntryLine}
    → resolve_line accounts org l ≡ ok e
    → row_net code e ≡ line_net code l
unfolding resolve_line
resolve_line-net accounts org code l h =
    elim (Option-cases (find (is_account org l.code) accounts)) [
      | inl missing ↦ ground arith
      | inr (a, q) ↦ ground (arith, find_passes (is_account org l.code) accounts q)
    ]

resolve_lines-net :
    (accounts : List Account) (org code : ℕ) (ls : List PostLine) (r : Resolved)
    → Ensures
        (λ (out : Resolved).
          sum_of (row_net code) out.resolved ≡ sum_of (row_net code) r.resolved +ℤ net code ls)
        (resolve_lines accounts org ls r)
unfolding resolve_lines
resolve_lines-net accounts org code [] r = eq_of_parts _ _ (omega int_laws)
resolve_lines-net accounts org code (l ∷ ls) r = elim (Result-cases (resolve_line accounts org l)) [
  | inl (e, q) ↦
      rw (q, resolve_lines)
        (Ensures-map _ _
          (λ (out : Resolved) h.
            h
            ∙ rw
                (
                  sum_of-append (row_net code) r.resolved (e ∷ []),
                  resolve_line-net accounts org code l q,
                )
                (eq_of_parts _ _ (omega int_laws)))
          (resolve_lines accounts org ls (take_line r e))
          (resolve_lines-net accounts org code ls (take_line r e)))
  | inr (x, q) ↦ rw (q, resolve_lines) tt
]

line_net-mirror :
    (code : ℕ) (l : EntryLine) → line_net code (mirror_line l) +ℤ row_net code l ≡ pos 0
line_net-mirror code l = elim (Bool-cases (l.account_code == code)) [
  | inl same ↦ rw same (eq_of_parts _ _ (omega int_laws))
  | inr other ↦ rw other (eq_of_parts _ _ (omega int_laws))
]

net-mirror :
    (code : ℕ) (ls : List EntryLine)
    → net code (map mirror_line ls) +ℤ sum_of (row_net code) ls ≡ pos 0
net-mirror code [] = eq_of_parts _ _ (omega int_laws)
net-mirror code (l ∷ ls) =
    add_zeros (line_net code (mirror_line l)) (row_net code l) (net code (map mirror_line ls))
      (sum_of (row_net code) ls) (line_net-mirror code l) (net-mirror code ls)

-- Entries have ids of their own.
abbrev pub HaveOwnIds : List JournalEntry → Type 0
HaveOwnIds [] = Unit
HaveOwnIds (e ∷ es) = All (λ (f : JournalEntry). f.id ≢ e.id) es × HaveOwnIds es

update_none :
    (org id : ℕ) (f : JournalEntry → JournalEntry) (es : List JournalEntry)
    → All (λ (e : JournalEntry). e.id ≢ id) es
    → update_where (is_entry org id) f es ≡ es
update_none org id f [] h = refl
update_none org id f (e ∷ es) h = ground (arith, update_none org id f es h.1)

-- Taking the entry out of the posted ones takes its net out of the balances.
unposted :
    (code org id : ℕ) (e : JournalEntry) (es : List JournalEntry)
    → HaveOwnIds es
    → find (is_reversible org id) es ≡ some e
    → posted_net code (update_where (is_entry org id) (with_status EntryStatus.reversed) es)
        +ℤ entry_net code e
      ≡ posted_net code es
unposted code org id e [] own h = cc
unposted code org id e (y ∷ ys) own h = elim (Bool-cases (is_reversible org id y)) [
  | inl hit ↦
      let same : y ≡ e = some-injective _ _ (rw (hit, find) at h) in
      let named : is_entry org id y ≡ true = ground arith in
      let live : is_posted y.status ≡ true = ground arith in
      let its : y.id ≡ id = ground arith in
      let rest : update_where (is_entry org id) (with_status EntryStatus.reversed) ys ≡ ys =
        update_none org id _ ys (
          All-map (λ (f : JournalEntry). f.id ≢ y.id) (λ (f : JournalEntry). f.id ≢ id)
            (λ (f : JournalEntry) n q. n (q ∙ sym its)) ys own.0) in
      rw (named, live, rest, ← same) (eq_of_parts _ _ (omega int_laws))
  | inr miss ↦
      let later : find (is_reversible org id) ys ≡ some e = rw miss at h in
      let (apart, found) =
        All-find (λ (f : JournalEntry). f.id ≢ y.id) (is_reversible org id) ys own.0 later in
      let unnamed : is_entry org id y ≡ false = elim (Bool-cases (is_entry org id y)) [
        | inl t ↦ absurd (apart (ground (arith, found, t)))
        | inr f ↦ f
      ] in
      rw unnamed (
        add_under (counted_net code y)
          (posted_net code (update_where (is_entry org id) (with_status EntryStatus.reversed) ys))
          (entry_net code e) (posted_net code ys) (unposted code org id e ys own.1 later))
]

-- Two more: a net that cancels the one taken out.
cancel_twice : (n u e s : ℤ) → n +ℤ e ≡ pos 0 → u +ℤ e ≡ s → n +ℤ u +ℤ e +ℤ e ≡ s
cancel_twice n u e s h k =
    eq_of_parts _ _ (omega (int_laws, ap pos_part h, ap neg_part h, ap pos_part k, ap neg_part k))

-- The new entry of a reversal, and the original taken out of the posted ones.
module _ (code org id : ℕ) (db : Db) (own : HaveOwnIds db.entries)
    (below : All (λ (e : JournalEntry). e.id < db.next_id) db.entries) (e : JournalEntry)
    (found : find (is_reversible org id) db.entries ≡ some e) where
  reversed_after :
      (r : Resolved)
      → resolve_lines db.accounts org (reversal_of_entry e).lines nothing_resolved ≡ ok r
      → posted_net code (
            update_where
              (is_entry org id)
              (with_status EntryStatus.reversed)
              (add_entry org (reversal_of_entry e) r.resolved db).1.entries)
          +ℤ entry_net code e
          +ℤ entry_net code e
        ≡ posted_net code db.entries
  unfolding add_entry
  reversed_after r q =
      let (under, hit) =
        All-find (λ (f : JournalEntry). f.id < db.next_id) (is_reversible org id) db.entries below
          found in
      let fresh : is_entry org id (add_entry org (reversal_of_entry e) r.resolved db).0 ≡ false =
        ground arith in
      let mirrored : sum_of (row_net code) r.resolved
          ≡ pos 0 +ℤ net code (map mirror_line e.lines) =
        rw q at
          (resolve_lines-net db.accounts org code (map mirror_line e.lines) nothing_resolved) in
      rw fresh (
        cancel_twice _ _ (entry_net code e) (posted_net code db.entries)
          (rw (mirrored, zero-+ℤ) (net-mirror code e.lines))
          (unposted code org id e db.entries own found))

abbrev pub CountsTwice : ℕ → ℕ → ℕ → Db → Db → Type 0
CountsTwice code org id db db' =
    (e : JournalEntry) × (find (is_reversible org id) db.entries ≡ some e)
    × (posted_net code db'.entries +ℤ entry_net code e +ℤ entry_net code e
        ≡ posted_net code db.entries)

marked :
    (code org id : ℕ) (db : Db)
    → HaveOwnIds db.entries
    → All (λ (e : JournalEntry). e.id < db.next_id) db.entries
    → (e : JournalEntry) → find (is_reversible org id) db.entries ≡ some e
    → (d : Db) → d ≡ db
    → (made : Option JournalEntry) (d' : Db) → post org (reversal_of_entry e) d ≡ ok (made, d')
    → After (CountsTwice code org id db) (
        (or_throw made (conflict already_reversed) >>= λ reversal.
        modify (λ x. record x {
          entries = update_where (is_entry org id) (with_status EntryStatus.reversed) x.entries;
        })
        >> pure reversal)
          d')
unfolding run
marked code org id db own below e found d here none d' q = tt
marked code org id db own below e found d here (some n) d' q =
    let (r, resolved, added) = post-booked org (reversal_of_entry e) db (rw here at q) in
    (
      e,
      found,
      subst
          (λ x.
            posted_net code
                (update_where (is_entry org id) (with_status EntryStatus.reversed) x.1.entries)
              +ℤ entry_net code e
              +ℤ entry_net code e
            ≡ posted_net code db.entries)
          added (reversed_after code org id db own below e found r resolved),
    )

reversible_entry-ok :
    (org id : ℕ) (db : Db) (e : JournalEntry) (d : Db)
    → reversible_entry org id db ≡ ok (e, d)
    → (find (is_reversible org id) db.entries ≡ some e) × (d ≡ db)
unfolding pure throw
reversible_entry-ok org id db e d q = ground arith

-- Where the entries have ids of their own below the next id, a reversal that does not throw has
-- found a posted entry that is no reversal, and for every account code the net of the posted
-- entries afterwards is the net before less two times the net of that entry.
pub reverse_entry-CountsTwice :
    (code org id : ℕ) (db : Db)
    → HaveOwnIds db.entries
    → All (λ (e : JournalEntry). e.id < db.next_id) db.entries
    → After (CountsTwice code org id db) (reverse_entry org id db)
unfolding reverse_entry
reverse_entry-CountsTwice code org id db own below =
    After-step _ (reversible_entry org id) _ db λ e d q.
      let (found, here) = reversible_entry-ok org id db e d q in
      After-step _ (post org (reversal_of_entry e)) _ d
        λ made d' q'. marked code org id db own below e found d here made d' q'
