-- ===== src/Lib.antt =====
-- Biz360, an ERP for small businesses with a tax-invoice interface: a NestJS service over a
-- PostgreSQL database (src/, with prisma/schema.prisma) and a web client (web/). This library models
-- the service's accounting core: the amounts of a document, the ledger, and the sales, purchasing,
-- inventory and journal operations that post to it; and beside it the quotations, credit notes,
-- purchase orders, goods receipts, bank accounts, document numbers, idempotency keys, the accounts
-- and sessions of users, the isolation of organizations in the database, and the taxes withheld from
-- suppliers with the credit notes that offset them.
--
-- How the parts interact. A controller calls one service method, which runs in one database
-- transaction. Sales (src/modules/sales/sales.service.ts) and purchasing
-- (src/modules/purchasing/purchasing.service.ts) compute a draft with src/common/helpers/money.ts;
-- confirming and voiding move stock, enqueue an event of the outbox and post to the ledger
-- (src/modules/accounting/ledger.service.ts), as do payments. The journal and the chart of accounts
-- (src/modules/accounting/accounting.service.ts) work on the same tables. A
-- quotation (src/modules/quotations/quotations.service.ts) becomes a draft sale; a credit note
-- (src/modules/credit-notes/credit-notes.service.ts) returns stock, changes the invoice that it refers
-- to and posts; a goods receipt (src/modules/goods-receipts/goods-receipts.service.ts) takes in stock
-- against a purchase order (src/modules/purchase-orders/purchase-orders.service.ts). In front of every
-- controller stands src/common/interceptors/idempotency.interceptor.ts.
--
-- Files.
--   Base          booleans, integers and lists over the native numbers
--   Result        the exceptions that the services throw, as values
--   Money         money.ts: round2, toAmount, multiply, percentage, sum; Money/Binary has the arithmetic
--                 of numbers, Money/Rounding and Exact are about it
--   Document      computeLine and the totals of createDraft, in sales.service.ts; Document/Sums
--   Store         the rows of schema.prisma, the database and transactions: Store/Rows,
--                 Store/Documents, Store/Database, Store/Monad;
--                 Store/Keeps, Leads and Succeeds are rules for what a transaction keeps, brings
--                 about, and when it does not throw
--   Ledger        ledger.service.ts: post; Ledger/Documents has the posting of each document, and
--                 Ledger/Resolve, Books, Once, Numbers, Documents/Mirror, Documents/Outcome are about them
--   Accounting    accounting.service.ts: Accounting/Chart for accounts, Accounting/Journal for entries
--                 (createEntry, approveEntry, reverseEntry), Accounting/Reports for trialBalance,
--                 profitLoss and balanceSheet; Journal/Reversal, Reports/Balance and Safety are about
--                 them
--   Stock         stock movements of sales and purchasing, and adjustStock of
--                 src/modules/inventory/inventory.service.ts; Stock/Agrees, Stock/Loops
--   Outbox        enqueue of src/events/outbox/outbox.service.ts, with the unique index on events in
--                 flight; Outbox/Worker is the poll of src/events/outbox/outbox.worker.ts, with
--                 Outbox/Worker/Attempts and Claims
--   Sales         sales.service.ts: Sales/Draft (createDraft, updateDraft), Sales/Lifecycle
--                 (confirmInvoice, voidInvoice, recordPayment); Outcome, Settlement, Contract,
--                 Progress, Release, Race, Revival and Safety are about them
--                 Sales/Lines is about reading the lines of a new document
--   CreditNotes   credit-notes.service.ts: createDraft, issue, cancel; CreditNotes/Unwind is about the
--                 invoice that a note refers to
--   Quotations    quotations.service.ts; Quotations/Life is the life of a quotation as a machine of its
--                 own, Requests the requests, and Moves, Refines, Expiry, Contract and Once are about
--                 them
--   Orders        purchase-orders.service.ts, with Orders/Lines for lines and totals
--   Receipts      goods-receipts.service.ts; Receipts/Within, Contract and Over are about what was
--                 received of an order line
--   Banking       src/modules/banking/banking.service.ts: accounts and balances; Banking/Statements for
--                 importStatement and reconcile, Banking/Once about the latter
--   Numbering     src/common/helpers/number-format.ts: formatDocumentNumber; Numbering/Digits,
--                 RoundTrip and Format are about it
--   Idempotency   idempotency.interceptor.ts: claims on keys; Idempotency/Events has the arrivals, ends
--                 and delays in any order, Idempotency/Replay is about them
--   Access        src/modules/auth (tokens.service.ts, auth.service.ts) and src/modules/users: Tokens for
--                 refresh tokens, Login for logins and members, Reset for links by mail, Requests for
--                 all of them in any order; Rules, Dead and Families are about a family of tokens,
--                 Fork about exchanges at once, Lockout about wrong passwords, Links and Spent about
--                 a reset link
--   Tenancy       src/prisma/prisma-extensions.ts: Models, Objects, and Compose for composeQueryArgs;
--                 Tenancy/Rows is about the rows that a query meets
--   Taxes         src/modules/accounting/withholding-tax (withholding-tax.service.ts): Taxes/Rates and
--                 Withholding; src/modules/compliance/supplier-etims (supplier-etims.service.ts):
--                 Suppliers for receipts, Credits for credit notes and what they offset. Latest is
--                 about the rate that is looked up, Certificates about their numbers, Shares, Granting
--                 and Matching about an offset, Offsets and Fits about all offsets; Requests has the
--                 requests in any order
--   Purchasing    purchasing.service.ts, with Purchasing/Safety
--   Consistency   the invariant of the whole database
--   System        the requests together, and sequences of them; System/Safety
--   Tests         the data of a shop, and the theorems applied to it
--
-- How the code is written here. A transaction is a function from the database to an error or a result
-- with the next database; an exception leaves the database as it was. `findFirst`, `updateMany` and
-- `create` are `find`, `update_where` and a new row at the front. Lookups carry the filters that the
-- database extension of src/prisma/prisma-extensions.ts adds: the organization, and the rows that
-- are not deleted. A method that reads a row and then writes it under a compare-and-set is split at the
-- read (`confirm_read`, `pay_read`), so that another transaction can come in between. A method whose
-- writes outlive its exception (the expiry of a quotation, a change of an order's status) is a
-- `Handler`: a result together with a database.
--
-- What is abstracted. A JavaScript number that stands for money is a binary fraction of 53 digits
-- (Money/Binary) where money.ts and the lines of documents compute with it, and an amount that has
-- been rounded is the integer of its hundredths, as long as it has at most fifteen digits. Where
-- amounts that are whole in cents are added and compared, as in the ledger and the reports, sums
-- below eight billion are exact to the cent (Money/Exact), and their roundings are left out; a
-- quantity in stock is in thousandths. Ids, codes of accounts and dates are numbers, dates in days;
-- the outbox counts in milliseconds. A new id is the next one of the database. Texts, currencies,
-- the users who act and timestamps that nothing reads are left out; a document keeps the sequence
-- value of its number, and Numbering prints it. The withheld taxes stand on tables of their own and
-- read payments, parties and purchases from the database of the others; the quotient of two
-- decimals, which a library rounds to its digits, is a parameter. A product of these decimals is exact.
-- Every loop is over a list but two. Printing a number has the number and one as its fuel, and no
-- number has more digits than that; the search of the last digit of a binary fraction has the 1074
-- and the 971 steps that the format has exponents for.
--
-- What is not modelled: turnover tax, scans, verification and bulk uploads of receipts, eTIMS, notifications, reports of
-- other modules, parties, registration, profiles, the handlers of outbox events, the rest of the HTTP layer
-- and the web client.
pub mod Base
pub mod Result
pub mod Money
pub mod Document
pub mod Store
pub mod Ledger
pub mod Accounting
pub mod Stock
pub mod Consistency
pub mod Outbox
pub mod Sales
pub mod Purchasing
pub mod CreditNotes
pub mod Quotations
pub mod Orders
pub mod Receipts
pub mod Idempotency
pub mod Numbering
pub mod Banking
pub mod Access
pub mod Tenancy
pub mod Taxes
pub mod System
mod Tests
