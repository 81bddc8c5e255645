-- ===== src/Quotations/Moves.antt =====
-- About one update of the quotations, against the machine of Quotations/Life.
use biz360_sme_erp_e_tims.Base.{
  ℕ, ◌<◌, Bool, true, ◌≡◌, refl, ◌∙◌, some, find, update_where, find-update_any, if◌then◌else◌,
  Bool-cases, inl, inr, arith,
}
use biz360_sme_erp_e_tims.Store.{Quotation, QuotationStatus, Db}
use biz360_sme_erp_e_tims.Quotations.{
  is_quotation, is_quote_in, is_cancellable, is_past, with_quote_status,
}
use biz360_sme_erp_e_tims.Quotations.Life.{Action, act, Reaches, then_act}

abbrev pub HasQuote : ℕ → ℕ → Quotation → Db → Type 0
HasQuote org id q db = find (is_quotation org id) db.quotations ≡ some q

-- The parts of a quotation that no request changes.
pub record SameTerms (q r : Quotation) : Type 0 where
  pub party : r.party_id ≡ q.party_id
  pub number : r.number ≡ q.number
  pub total : r.total ≡ q.total
  pub tax : r.tax_total ≡ q.tax_total
  pub lines : r.lines ≡ q.lines

pub same-SameTerms : (q : Quotation) → SameTerms q q
same-SameTerms q = record { party = refl; number = refl; total = refl; tax = refl; lines = refl }

SameTerms-trans : (q r s : Quotation) → SameTerms q r → SameTerms r s → SameTerms q s
SameTerms-trans q r s a b = record {
  party = b.party ∙ a.party;
  number = b.number ∙ a.number;
  total = b.total ∙ a.total;
  tax = b.tax ∙ a.tax;
  lines = b.lines ∙ a.lines;
}

-- A row is changed along the machine, with its terms as they were.
pub record IsMove (q r : Quotation) : Type 0 where
  pub key : (org id : ℕ) → is_quotation org id r ≡ is_quotation org id q
  pub terms : SameTerms q r
  pub life : {s : QuotationStatus} → Reaches s q.status → Reaches s r.status

-- The row that was `q` is there, where the machine may be, and its id was handed out.
pub record Lives (org id : ℕ) (q : Quotation) (db : Db) : Type 0 where
  pub row : Quotation
  pub found : HasQuote org id row db
  pub terms : SameTerms q row
  pub life : Reaches q.status row.status
  pub old : id < db.next_id

pub to_status :
    (y : Quotation) (s : QuotationStatus)
    → (a : Action) × (act a y.status ≡ some s)
    → IsMove y (with_quote_status s y)
to_status y s (a, e) = record {
  key = λ org id. refl;
  terms = record { party = refl; number = refl; total = refl; tax = refl; lines = refl };
  life = λ r. then_act a r e;
}

pub stays :
    (y z : Quotation)
    → ((org id : ℕ) → is_quotation org id z ≡ is_quotation org id y)
    → SameTerms y z
    → z.status ≡ y.status
    → IsMove y z
stays y z key terms e = record { key = key; terms = terms; life = λ r. rw e r }

has_status :
    (org id : ℕ) (s : QuotationStatus) (y : Quotation)
    → is_quote_in org id s y ≡ true
    → y.status ≡ s
has_status org id s y h = ground arith

pub from_draft :
    (org id : ℕ) (y : Quotation)
    → is_quote_in org id QuotationStatus.draft y ≡ true
    → (a : Action) × (act a y.status ≡ some QuotationStatus.sent)
from_draft org id y h = (Action.send, rw (has_status org id QuotationStatus.draft y h) refl)

pub from_sent :
    (org id : ℕ) (y : Quotation)
    → is_quote_in org id QuotationStatus.sent y ≡ true
    → (a : Action) × (act a y.status ≡ some QuotationStatus.accepted)
from_sent org id y h = (Action.accept, rw (has_status org id QuotationStatus.sent y h) refl)

pub from_accepted :
    (org id : ℕ) (y : Quotation)
    → is_quote_in org id QuotationStatus.accepted y ≡ true
    → (a : Action) × (act a y.status ≡ some QuotationStatus.converted)
from_accepted org id y h =
    (Action.convert, rw (has_status org id QuotationStatus.accepted y h) refl)

pub from_cancellable :
    (org id : ℕ) (y : Quotation)
    → is_cancellable org id y ≡ true
    → (a : Action) × (act a y.status ≡ some QuotationStatus.cancelled)
from_cancellable org id y h = (Action.cancel, ground arith)

pub from_live :
    (org id now : ℕ) (o : Quotation)
    → is_past now o ≡ true
    → (y : Quotation) → is_quote_in org id o.status y ≡ true
    → (a : Action) × (act a y.status ≡ some QuotationStatus.expired)
from_live org id now o past y h = (Action.expire, ground (arith, has_status org id o.status y h))

module _ (org id : ℕ) (q : Quotation) where
  moved :
      (p : Quotation → Bool) (f : Quotation → Quotation) (r : Quotation)
      → (p r ≡ true → IsMove r (f r))
      → Reaches q.status r.status
      → SameTerms q r
      → SameTerms q (if p r then f r else r) × Reaches q.status (if p r then f r else r).status
  moved p f r h life terms = elim (Bool-cases (p r)) [
    | inl t ↦ rw t (SameTerms-trans q r (f r) terms (h t).terms, (h t).life life)
    | inr t ↦ rw t (terms, life)
  ]

  pub update_moves :
      (p : Quotation → Bool) (f : Quotation → Quotation)
      → ((y : Quotation) → p y ≡ true → IsMove y (f y))
      → ((y : Quotation) → is_quotation org id (f y) ≡ is_quotation org id y)
      → (db : Db) → Lives org id q db
      → Lives org id q (record db { quotations = update_where p f db.quotations })
  update_moves p f h keep db l =
      let (terms, life) = moved p f l.row (h l.row) l.life l.terms in
      record {
        row = if p l.row then f l.row else l.row;
        found = find-update_any (is_quotation org id) p f keep l.row db.quotations l.found;
        terms = terms;
        life = life;
        old = l.old;
      }
