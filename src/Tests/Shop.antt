-- ===== src/Tests/Shop.antt =====
-- An organization with a chart of accounts, a customer, a supplier and an item, and an invoice of
-- three of that item.
use biz360_sme_erp_e_tims.Base.{ℕ, true, false, none, some, List, [], ◌∷◌}
use biz360_sme_erp_e_tims.Base.Int.{pos}
use biz360_sme_erp_e_tims.Money.{finite}
use biz360_sme_erp_e_tims.Document.{LineDto, ComputedLine}
use biz360_sme_erp_e_tims.Store.{
  AccountType, Account, PartyType, InvoiceStatus, MovementType, Item, Party, Invoice, Db,
}
use biz360_sme_erp_e_tims.Stock.{add_stock}
use biz360_sme_erp_e_tims.Sales.Draft.{stored_line}

abbrev pub account : ℕ → ℕ → AccountType → Account
account id code t = record {
  id = id;
  org = 1;
  code = code;
  type = t;
  active = true;
  deleted = false;
}

abbrev pub chart : List Account
chart =
    account 10 1100 AccountType.asset
    ∷ account 11 1200 AccountType.asset
    ∷ account 12 1300 AccountType.asset
    ∷ account 13 1400 AccountType.asset
    ∷ account 14 2100 AccountType.liability
    ∷ account 15 2200 AccountType.liability
    ∷ account 16 4100 AccountType.income
    ∷ account 17 5100 AccountType.expense
    ∷ []

abbrev pub customer : Party
customer = record {
  id = 20;
  org = 1;
  type = PartyType.customer;
  terms_days = none;
  credit_limit = some (pos 1_000_000);
  deleted = false;
}

abbrev pub supplier : Party
supplier = record {
  id = 21;
  org = 1;
  type = PartyType.supplier;
  terms_days = some 14;
  credit_limit = none;
  deleted = false;
}

-- Bought at 60.00, sold at 100.00, taxed.
abbrev pub flour : Item
flour = record {
  id = 22;
  org = 1;
  buy_price = some (pos 6000);
  sell_price = some (pos 10_000);
  taxed = true;
  track_stock = true;
  stock_on_hand = pos 0;
  deleted = false;
}

abbrev pub shop : Db
shop = record {
  next_id = 100;
  today = 20_000;
  now = 1_728_000_000_000;
  accounts = chart;
  entries = [];
  entry_seq = λ o. 0;
  items = flour ∷ [];
  movements = [];
  parties = customer ∷ supplier ∷ [];
  settings = [];
  sales = [];
  sale_seq = λ o. 0;
  purchases = [];
  purchase_seq = λ o. 0;
  payments = [];
  outbox = [];
  credit_notes = [];
  note_seq = λ o. 0;
  quotations = [];
  quote_seq = λ o. 0;
  orders = [];
  order_seq = λ o. 0;
  receipts = [];
  receipt_seq = λ o. 0;
  bank_accounts = [];
  bank_lines = [];
  reconciliations = [];
}

abbrev pub line_of_flour : ℕ → LineDto
line_of_flour n = record {
  item_id = some 22;
  quantity = some (finite (pos n) 0);
  unit_price = none;
  tax_rate = none;
  discount_pct = none;
  line_discount = none;
}

-- The draft of three of the item, and the same invoice released and void.
abbrev pub three_of_flour : ComputedLine
three_of_flour = record {
  item_id = some 22;
  quantity = pos 300;
  unit_price = pos 10_000;
  tax_rate = pos 1600;
  discount_pct = pos 0;
  line_discount = pos 0;
  line_amount = pos 30_000;
  line_total = pos 30_000;
  tax_amount = pos 4800;
}

abbrev pub sale : InvoiceStatus → Invoice
sale s = record {
  id = 102;
  org = 1;
  number = 1;
  party_id = 20;
  invoice_date = 20_000;
  due_date = none;
  status = s;
  subtotal = pos 30_000;
  discount_total = pos 0;
  tax_total = pos 4800;
  total = pos 34_800;
  amount_paid = pos 0;
  lines = stored_line three_of_flour ∷ [];
}

abbrev pub shop_with : InvoiceStatus → Db
shop_with s = record shop {
  next_id = 103;
  items = add_stock (pos 10_000) flour ∷ [];
  movements =
      record {
        org = 1;
        item_id = 22;
        quantity = pos 10_000;
        type = MovementType.purchase_in;
        reference = none;
      }
      ∷ [];
  sales = sale s ∷ [];
}
