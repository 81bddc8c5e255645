-- ===== src/Ledger/Numbers.antt =====
-- About the entry numbers that `allocateNumber` of modules/accounting/ledger.service.ts hands out.
use biz360_sme_erp_e_tims.Base.{
  ℕ, ◌≤◌, ◌≡◌, ◌≢◌, List, [], ◌∷◌, arith, All, All-map, Option, suc, ap, refl,
}
use biz360_sme_erp_e_tims.Result.{Result}
use biz360_sme_erp_e_tims.Store.{JournalEntry, Db, bump}
use biz360_sme_erp_e_tims.Store.Keeps.{After}
use biz360_sme_erp_e_tims.Ledger.{Posting, Resolved, add_entry, post}
use biz360_sme_erp_e_tims.Ledger.Books.{Posted, skipped, refused, differs, booked, post-Posted}

abbrev pub IsUnderSeq : (ℕ → ℕ) → JournalEntry → Type 0
IsUnderSeq seq e = e.number ≤ seq e.org

abbrev pub Differs : JournalEntry → JournalEntry → Type 0
Differs e f = e.org ≡ f.org → e.number ≢ f.number

abbrev pub AreDistinct : List JournalEntry → Type 0
AreDistinct [] = Unit
AreDistinct (e ∷ es) = All (Differs e) es × AreDistinct es

-- The numbers of an organization's entries are distinct, and none is above its sequence.
pub record AreNumbered (seq : ℕ → ℕ) (es : List JournalEntry) : Type 0 where
  pub under : All (IsUnderSeq seq) es
  pub distinct : AreDistinct es

abbrev pub IsNumbered : Db → Type 0
IsNumbered db = AreNumbered db.entry_seq db.entries

under_bump :
    (seq : ℕ → ℕ) (org : ℕ) (e : JournalEntry) → IsUnderSeq seq e → IsUnderSeq (bump seq org) e
under_bump seq org e h = ground arith

over_seq :
    (seq : ℕ → ℕ) (n e : JournalEntry) → n.number ≡ suc (seq n.org) → IsUnderSeq seq e → Differs n e
over_seq seq n e q h same = ground (arith, ap seq same)

add_entry-IsNumbered :
    (org : ℕ) (p : Posting) (r : Resolved) (db : Db)
    → IsNumbered db
    → IsNumbered (add_entry org p r.resolved db).1
unfolding add_entry
add_entry-IsNumbered org p r db h = record {
  under = (ground arith, All-map _ _ (under_bump db.entry_seq org) db.entries h.under);
  distinct = (
    All-map (IsUnderSeq db.entry_seq) _
        (λ e. over_seq db.entry_seq (add_entry org p r.resolved db).0 e refl) db.entries h.under,
    h.distinct,
  );
}

-- Where the entry numbers of each organization are distinct and none is above its sequence, a
-- posting that does not throw keeps that so.
pub post-IsNumbered :
    (org : ℕ) (p : Posting) (db : Db) → IsNumbered db → After IsNumbered (post org p db)
post-IsNumbered org p db b = go (post-Posted org p db)
  where
    go : {r : Result (Option JournalEntry × Db)} → Posted org p db r → After IsNumbered r
    go (skipped h) = b
    go (refused h q) = tt
    go (differs r h q e) = tt
    go (booked r h q e) = add_entry-IsNumbered org p r db b
