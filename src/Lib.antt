-- ===== src/Lib.antt =====
-- Verification of the core of pulso-crm, a management program for gyms: members' accounts, cash
-- registers, stock, access at the door and billing periods.
--
-- The services of apps/api/src/modules run transactions on a PostgreSQL database. Here a
-- transaction is a function from the rows to a value and new rows, or an error (Store.Action): an
-- error carries no rows, since the database rolls back. Transactions run one after another, as the
-- row locks and the SERIALIZABLE level of the code provide; where the code reads outside its
-- transaction, the model keeps the read and the transaction apart.
--
-- The parts, and the code that each follows:
--   Prelude: Boolean tests, tables as lists, results with the error codes of
--     apps/api/src/common/errors, integers of cents.
--   Calendar: packages/config/src/time.ts and billing.ts. `Calendar.Period` adds the loop by which
--     apps/api/src/modules/memberships/memberships.service.ts (`renew`) finds the period of today.
--     The loop runs on fuel; one more than the months from the first window to today is enough.
--   Store: the rows of packages/db/prisma/schema.prisma for one gym, the transactions, and
--     apps/api/src/common/auth/tenant-context.ts (`Store.Context`).
--   Ledger: apps/api/src/modules/members/ledger.ts, `post_ledger_entry` and
--     `recalculate_member_balance`.
--   Cash: apps/api/src/modules/cash. `Cash` has the parts of lib/, `Cash.Movement` is
--     cash-movement.service.ts (`create`, `reverse`), `Cash.Session` is cash-session.service.ts
--     (`open_cash` is `open`) with `Cash.Session.Close` (`close`). Movements of members are posted
--     to their accounts by Ledger.
--   Payment: apps/api/src/modules/members/member-payment.service.ts, the quote (`quote_of` is the
--     computation of `buildQuote`) and `pay`, which writes to Ledger and Cash.
--   Memberships: apps/api/src/modules/memberships/memberships.service.ts: `Memberships` has what the
--     operations share, with the price of packages/config/src/billing.ts, `Memberships.Create` is
--     `create` (`create_membership`), `Memberships.Renewal` `renew`, `Memberships.Recurrence`
--     `cancel`, `configureRenewal` and `stopRenewalDescendants`. They post to Ledger and, if the
--     price is collected at once, to Cash. The loop over the descendants has one more round of
--     fuel than there are ids.
--   Worker: apps/worker/src/jobs. `Worker.Renewals` is membership-renewal.ts, `Worker.Expirations`
--     membership-expiration.ts, both on the rows of one gym; `Worker.Outbox` is
--     outbox-dispatcher.ts and `Worker.Messages` send-message.ts, with BullMQ and the provider of
--     messages as arguments.
--   Money: packages/config/src/money.ts, over the codes of the characters.
--   Idempotency: apps/api/src/common/idempotency/idempotency.interceptor.ts, the state of a key.
--     `claim` is what `intercept` does before the handler runs; claims and the ends of handlers are
--     the steps of a relation.
--   Access: apps/api/src/modules/access. `Access` is access-decision.ts, `Access.Week`
--     access-date.util.ts, `Access.Check` the snapshot and `Access.Record` the transaction of
--     access.service.ts (`decideAndRecord`, `checkForMember`).
--   Inventory: apps/api/src/modules/inventory/inventory.service.ts, stock changes and, in
--     `Inventory.Sales`, `sell` and `reverse` (`reverse_sale`); `Inventory.Products` is
--     `createProduct` and `updateProduct`, `Inventory.Mutate` is `mutate`, and `Inventory.Service`
--     the operations as they are called, with a key. The commits of others that abort an attempt are
--     an argument.
--
-- Amounts are integers of cents, as PostgreSQL's Decimal(14, 2) holds them; quantities of stock keep
-- the bound of a 32-bit integer that the code tests. Ids are numbers. Dates are calendar dates.
--
-- Not modelled: requests over HTTP and their schemas, time zones (a business day is an argument),
-- personal data and free texts, the queries that only list rows, authentication,
-- biometrics and devices, and the web application.
pub mod Prelude
pub mod Calendar
pub mod Money
pub mod Store
pub mod Worker
pub mod Idempotency
pub mod Ledger
pub mod Cash
pub mod Access
pub mod Inventory
pub mod Payment
pub mod Memberships
