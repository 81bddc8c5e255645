-- ===== src/Ledger/Once.antt =====
-- About the sources that `post` of modules/accounting/ledger.service.ts has booked.
use biz360_sme_erp_e_tims.Base.{
  ℕ, Bool, false, ◌≤◌, ◌≡◌, refl, List, [], ◌∷◌, arith, count_where, find, some, none, Option, ap,
}
use biz360_sme_erp_e_tims.Result.{Result, ok}
use biz360_sme_erp_e_tims.Store.{JournalEntry, SourceType, Db}
use biz360_sme_erp_e_tims.Store.Keeps.{After}
use biz360_sme_erp_e_tims.Ledger.{
  Posting, is_manual, is_posted_for, source_code, already_posted, Resolved, add_entry, post,
}
use biz360_sme_erp_e_tims.Ledger.Books.{Posted, skipped, refused, differs, booked, post-Posted}

-- No source but the manual one has two entries in an organization.
abbrev pub AreOnce : List JournalEntry → Type 0
AreOnce es =
    (org k : ℕ) (t : SourceType)
    → is_manual t ≡ false
    → count_where (is_posted_for org (source_code t) k) es ≤ 1

abbrev pub BookedOnce : Db → Type 0
BookedOnce db = AreOnce db.entries

count_of_find : {A : Type 0} (p : A → Bool) (xs : List A) → find p xs ≡ none → count_where p xs ≡ 0
count_of_find p [] h = refl
count_of_find p (x ∷ xs) h = ground (arith, count_of_find p xs)

-- Had there been an entry of this source, `post` would not have booked another.
count_new :
    (org : ℕ) (p : Posting) (es : List JournalEntry) (k c : ℕ)
    → is_manual p.source_type ≡ false
    → p.source_id ≡ some k
    → already_posted org p es ≡ false
    → source_code p.source_type ≡ c
    → count_where (is_posted_for org c k) es ≡ 0
unfolding already_posted
count_new org p es k c m s h q = ground (
  arith,
  count_of_find (is_posted_for org (source_code p.source_type) k) es,
  ap (λ d. count_where (is_posted_for org d k) es) q,
)

add_entry-BookedOnce :
    (org : ℕ) (p : Posting) (r : Resolved) (db : Db)
    → already_posted org p db.entries ≡ false
    → BookedOnce db
    → BookedOnce (add_entry org p r.resolved db).1
unfolding add_entry
add_entry-BookedOnce org p r db h once o k t m =
    ground (arith, once o k t m, count_new org p db.entries k (source_code t))

-- Where no source but the manual one has two entries in an organization, a posting that does not
-- throw keeps that so.
pub post-BookedOnce :
    (org : ℕ) (p : Posting) (db : Db) → BookedOnce db → After BookedOnce (post org p db)
post-BookedOnce org p db b = go (post-Posted org p db)
  where
    go : {r : Result (Option JournalEntry × Db)} → Posted org p db r → After BookedOnce r
    go (skipped h) = b
    go (refused h q) = tt
    go (differs r h q e) = tt
    go (booked r h q e) = add_entry-BookedOnce org p r db h b

-- A posting that booked an entry added it to the books, and nothing else to the tables.
pub added :
    (org : ℕ) (p : Posting) (db : Db) {e : JournalEntry} {db' : Db}
    → post org p db ≡ ok (some e, db')
    → (r : Resolved) × (add_entry org p r.resolved db ≡ (e, db'))
added org p db {e} {db'} h = go (post-Posted org p db) h
  where
    go :
        {r : Result (Option JournalEntry × Db)}
        → Posted org p db r
        → r ≡ ok (some e, db')
        → (s : Resolved) × (add_entry org p s.resolved db ≡ (e, db'))
    go (skipped h) q = cc
    go (refused h q') q = cc
    go (differs r h q' e) q = cc
    go (booked r h q' e) q = (r, ground arith)

-- Once a posting with a source that is not manual has booked an entry, a posting of the same source
-- returns none and leaves the database as it is, whatever its lines are.
pub post_again :
    (org k : ℕ) (p q : Posting) (db : Db) {e : JournalEntry} {db' : Db}
    → post org p db ≡ ok (some e, db')
    → is_manual p.source_type ≡ false
    → p.source_id ≡ some k
    → q.source_type ≡ p.source_type
    → q.source_id ≡ p.source_id
    → post org q db' ≡ ok (none, db')
unfolding post already_posted add_entry
post_again org k p q db h m s t u = ground (arith, added org p db h)
