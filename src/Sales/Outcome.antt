-- ===== src/Sales/Outcome.antt =====
-- About the row of the invoice after a confirmation or a void.
use biz360_sme_erp_e_tims.Base.{
  ℕ, true, false, ◌≡◌, refl, Option, some, List, [], ◌∷◌, find, update_where, find-update_where,
  some-injective, sym, ◌∙◌, arith,
}
use biz360_sme_erp_e_tims.Base.Int.{ℤ, pos}
use biz360_sme_erp_e_tims.Result.{Result}
use biz360_sme_erp_e_tims.Store.{
  Invoice, InvoiceStatus, Payment, JournalEntry, MovementType, OutboxType, AggregateType, Db, fresh,
  modify,
}
use biz360_sme_erp_e_tims.Store.Keeps.{
  After, Keeps, Keeps-then, Keeps-gets, Keeps-throw_if, Keeps-modify, keeps_rules,
}
use biz360_sme_erp_e_tims.Store.Leads.{
  Leads, Leads-first, Leads-first_then, Leads-last_then, Leads-guard, Leads-find, Leads-modify,
}
use biz360_sme_erp_e_tims.Ledger.{Posting, add_entry, post}
use biz360_sme_erp_e_tims.Ledger.Books.{Posted, skipped, refused, differs, booked, post-Posted}
use biz360_sme_erp_e_tims.Ledger.Documents.{
  post_sale_invoice, post_sale_cogs, post_sale_cogs_reversal, post_sale_payment_reversal,
  post_sale_void,
}
use biz360_sme_erp_e_tims.Stock.{move_stock}
use biz360_sme_erp_e_tims.Stock.Loops.{sell_lines-Keeps, return_lines-Keeps}
use biz360_sme_erp_e_tims.Outbox.{insert_event, enqueue}
use biz360_sme_erp_e_tims.Sales.Draft.{is_invoice, is_draft}
use biz360_sme_erp_e_tims.Sales.Lifecycle.{
  is_still_draft, confirm_row, void_row, is_void, confirm_read, update_one_sale, confirm_invoice,
  reverse_payments, undo_release, void_read, void_invoice,
}

-- A property of the sale invoices alone.
module _ (S : List Invoice → Type 0) where
  abbrev pub OfSales : Db → Type 0
  OfSales db = S db.sales

  pub post-Keeps : (org : ℕ) (p : Posting) → Keeps OfSales (post org p)
  unfolding add_entry
  post-Keeps org p = record { run = λ db h. go db h (post-Posted org p db) }
    where
      go :
          (db : Db)
          → OfSales db
          → {r : Result (Option JournalEntry × Db)} → Posted org p db r
          → After OfSales r
      go db h (skipped a) = h
      go db h (refused a b) = tt
      go db h (differs r a b c) = tt
      go db h (booked r a b c) = h

  pub move-keeps :
      (org id : ℕ) (delta : ℤ) (t : MovementType) (ref : Option ℕ) (db : Db)
      → OfSales db
      → OfSales (move_stock org id delta t ref db)
  unfolding move_stock
  move-keeps org id delta t ref db h = h

  insert_event-Keeps :
      (t : OutboxType) (k : AggregateType) (a org : ℕ) (limit : Option ℕ)
      → Keeps OfSales (modify (insert_event t k a org limit))
  insert_event-Keeps t k a org limit = Keeps-modify OfSales _ (λ db h. h)

  pub enqueue-Keeps :
      (t : OutboxType) (k : AggregateType) (a org : ℕ) (limit : Option ℕ)
      → Keeps OfSales (enqueue t k a org limit)
  unfolding enqueue
  enqueue-Keeps t k a org limit = search (keeps_rules, insert_event-Keeps) depth 10

  pub fresh-Keeps : Keeps OfSales fresh
  unfolding fresh
  fresh-Keeps = record { run = λ db h. h }

  pub payment-Keeps :
      (p : Payment) → Keeps OfSales (modify (λ db. record db { payments = p ∷ db.payments }))
  payment-Keeps p = Keeps-modify OfSales _ (λ db h. h)

  reverse_payments-Keeps :
      (org id : ℕ) (ps : List Payment) → Keeps OfSales (reverse_payments org id ps)
  unfolding reverse_payments post_sale_payment_reversal
  reverse_payments-Keeps org id [] = search keeps_rules
  reverse_payments-Keeps org id (p ∷ ps) =
      Keeps-then OfSales (search (keeps_rules, post-Keeps) depth 10)
        (reverse_payments-Keeps org id ps)

  undo_release-Keeps :
      (org id : ℕ) (inv : Invoice) (cost : ℤ) → Keeps OfSales (undo_release org id inv cost)
  unfolding undo_release post_sale_void post_sale_cogs_reversal
  undo_release-Keeps org id inv cost =
      search (keeps_rules, post-Keeps, enqueue-Keeps, reverse_payments-Keeps) depth 20

-- The row of the invoice is the one given.
abbrev pub HasRow : ℕ → ℕ → Invoice → List Invoice → Type 0
HasRow org id i sales = find (is_invoice org id) sales ≡ some i

-- The row found is as `P` says.
abbrev pub RowIs : ℕ → ℕ → (Invoice → Type 0) → List Invoice → Type 0
RowIs org id P sales = (i : Invoice) × HasRow org id i sales × P i

is_invoice_of_draft :
    (org id : ℕ) (j : Invoice) → is_still_draft org id j ≡ true → is_invoice org id j ≡ true
is_invoice_of_draft org id j h = ground arith

pub found-is_invoice :
    (org id : ℕ) (i : Invoice) (sales : List Invoice)
    → HasRow org id i sales
    → is_invoice org id i ≡ true
found-is_invoice org id i [] h = cc
found-is_invoice org id i (j ∷ js) h = ground (arith, found-is_invoice org id i js)

-- A confirmed row that differs from the one read in its status and due date alone.
abbrev pub IsConfirmed : Invoice → Invoice → Type 0
IsConfirmed inv i =
    (i.status ≡ InvoiceStatus.confirmed)
    × (i.total ≡ inv.total)
    × (i.amount_paid ≡ inv.amount_paid)
    × (is_draft inv.status ≡ true)

-- The compare-and-set of the status, at a row that is a draft.
confirm_row-Leads :
    (org id due : ℕ) (inv : Invoice)
    → is_draft inv.status ≡ true
    → Leads
        (OfSales (HasRow org id inv))
        (OfSales (RowIs org id (IsConfirmed inv)))
        (update_one_sale (is_still_draft org id) (confirm_row due))
unfolding update_one_sale
confirm_row-Leads org id due inv draft = Leads-first _ _ (Keeps-gets _ _) (λ n.
    Leads-first_then _ _ (Keeps-throw_if _ _ _) (
      Leads-modify _ _ _ (λ db h. (
        confirm_row due inv,
        find-update_where (is_invoice org id) (is_still_draft org id) (confirm_row due) inv db.sales
            (is_invoice_of_draft org id) (is_invoice_of_draft org id)
            (ground (arith, found-is_invoice org id inv db.sales h)) h,
        (refl, refl, refl, draft),
      ))))

confirm_read-Leads :
    (org id : ℕ) (inv : Invoice)
    → Leads
        (OfSales (HasRow org id inv))
        (OfSales (RowIs org id (IsConfirmed inv)))
        (confirm_read org id inv)
unfolding confirm_read post_sale_invoice post_sale_cogs
confirm_read-Leads org id inv = Leads-guard _ _ _ _ λ g. Leads-first _ _ (Keeps-gets _ _) λ party.
    Leads-first _ _ (Keeps-gets _ _) λ setting. Leads-first _ _ (Keeps-gets _ _) λ owed.
      Leads-first_then _ _ (Keeps-throw_if _ _ _) (
        Leads-first _ _
          (sell_lines-Keeps _ (move-keeps (HasRow org id inv)) org id inv.lines (pos 0))
          λ cost.
            Leads-last_then _ _ (confirm_row-Leads org id _ inv (ground (arith, g)))
              (search (keeps_rules, post-Keeps, enqueue-Keeps) depth 15))

-- A confirmation that succeeds has found a draft, and leaves it confirmed with its total and its
-- payments as they were.
pub confirm_invoice-Leads :
    (org id : ℕ) (inv : Invoice)
    → Leads
        (OfSales (HasRow org id inv))
        (OfSales (RowIs org id (IsConfirmed inv)))
        (confirm_invoice org id)
unfolding confirm_invoice
confirm_invoice-Leads org id inv = Leads-find _ _ _ _ λ i. record {
  run = λ db h.
      rw (some-injective i inv (sym h.1 ∙ h.0)) ((confirm_read-Leads org id inv).run db h.0);
}

abbrev pub IsVoided : Invoice → Invoice → Type 0
IsVoided inv i =
    (i.status ≡ InvoiceStatus.void)
    × (i.total ≡ inv.total)
    × (i.amount_paid ≡ inv.amount_paid)
    × (is_void inv.status ≡ false)

void_row-Leads :
    (org id : ℕ) (inv : Invoice)
    → is_void inv.status ≡ false
    → Leads
        (OfSales (HasRow org id inv))
        (OfSales (RowIs org id (IsVoided inv)))
        (modify (λ db. record db { sales = update_where (is_invoice org id) void_row db.sales }))
void_row-Leads org id inv live = Leads-modify _ _ _ λ db h. (
  void_row inv,
  find-update_where (is_invoice org id) (is_invoice org id) void_row inv db.sales (λ j e. e)
      (λ j e. e) (found-is_invoice org id inv db.sales h) h,
  (refl, refl, refl, live),
)

void_read-Leads :
    (org id : ℕ) (inv : Invoice)
    → Leads
        (OfSales (HasRow org id inv))
        (OfSales (RowIs org id (IsVoided inv)))
        (void_read org id inv)
unfolding void_read
void_read-Leads org id inv = Leads-guard _ _ _ _ λ g.
    Leads-first _ _
      (search (
        keeps_rules,
        return_lines-Keeps (OfSales (HasRow org id inv)) (move-keeps (HasRow org id inv)),
      ))
      λ cost.
        Leads-last_then _ _ (void_row-Leads org id inv g) (search (keeps_rules, undo_release-Keeps))

-- A void that succeeds has found an invoice that was not void, and leaves it void.
pub void_invoice-Leads :
    (org id : ℕ) (inv : Invoice)
    → Leads
        (OfSales (HasRow org id inv))
        (OfSales (RowIs org id (IsVoided inv)))
        (void_invoice org id)
unfolding void_invoice
void_invoice-Leads org id inv = Leads-find _ _ _ _ λ i. record {
  run = λ db h. rw (some-injective i inv (sym h.1 ∙ h.0)) ((void_read-Leads org id inv).run db h.0);
}
