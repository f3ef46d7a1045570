-- ===== src/Lib.antt =====
-- Verification of Bonapp, the ordering system for restaurants: the services of its API that move
-- orders, payments, shifts and POS submissions, sign users in, keep the restaurants apart, and
-- administer menus and tables (apps/api/src).
--
-- The program. A guest orders at a table (guest-session), the staff creates and moves orders
-- (orders), the kitchen moves their items, a payment arrives as a notification of a provider
-- (guest-session/bepaid-webhook.ts and erip-webhook.ts), a receipt is issued
-- (staff/fiscalization), and the cashier opens and closes a shift (staff/shift). A worker sends
-- the orders of guests to the POS of the restaurant (onboarding/pos-order-*). Managers and staff
-- sign in with passwords, PINs, codes and tokens (auth, staff-auth), and edit the menu (menu) and
-- the tables (halls); most queries go through a client that is bound to one restaurant (prisma).
-- All of them share one database; each operation below is a handler on one store, and the
-- operations run one after the other, as the row and advisory locks of the transactions have it
-- (the opening of a shift, which has only a unique index, is one step too).
--
-- Base: names, Boolean tests, the monad of a handler with the exceptions by class; `transaction`
--   undoes the writes of a block that throws.
-- Database: the tables of apps/api/prisma/schema.prisma as lists of rows. Which row findFirst
--   returns is a parameter (`Prisma`): some row that satisfies the filter, or none if there is none.
--   Database/Keys: unique ids. Database/Instance: a choice of rows for runs.
-- Orders/Status: changeStatus, pay, updateStatus. Orders/Kitchen: updateKitchenStatus.
--   Orders/Pricing: the loop over the requested items. Orders/Create: create, createGuestOrder,
--   addOrderItem, daily numbers. Orders/Phone: normalizeBelarusPhone.
-- Payments/Card, Payments/Invoice: createCardPayment, createEripPayment. Payments/Bepaid,
--   Payments/Erip: `process` of the two workers. Payments/Fiscalization: receipts.
-- Orders/Active: findActive. Staff/Shifts: open and close of ShiftService. Pos/Recovery: claim,
--   submission, worker. Pos/Network: the hosts and addresses of a POS and the requests to it.
-- History: the operations that write orders, one after the other in any order; updateStatus only
--   for an order that is not paid, and to another status than PAID.
-- Auth/Cache: CacheService over Redis, a parameter with the contract of its commands
--   (apps/api/src/cache). Auth/Accounts, Auth/Login, Auth/Codes, Auth/Base32: AuthService
--   (apps/api/src/auth).
--   Auth/Tokens, Auth/Sessions: the tokens and the sign-in of the staff (apps/api/src/staff-auth).
--   Auth/Guard: AuthGuard. Auth/Instance: a map with expiry times, for runs.
-- Staff/Members: deactivate and resetPin of StaffService (apps/api/src/staff/staff.service.ts).
-- Tenants/Arguments, Tenants/Scope: the arguments of queries as JavaScript objects, and how
--   forTenant restricts them to a restaurant (apps/api/src/prisma/prisma.service.ts).
-- Menu/Catalog, Menu/Items, Menu/Ordering, Menu/Names: MenuCatalogService; Menu/Admin:
--   MenuAdminService (apps/api/src/menu), on the tables of Menu/Rows.
-- Halls: HallsService (apps/api/src/halls). Pos/Pending: recoverPendingPosOrders
--   (apps/api/src/onboarding/pos-order-recovery.ts), whose loop is on fuel.
-- Payments/Webhooks: `accept` of BepaidWebhookService and EripWebhookService, before the workers.
-- Tenants/Blocking: SuperadminService (apps/api/src/superadmin): the blocking of a restaurant, its
--   plan and its trial.
-- Staff/Inputs, Staff/Roster: create, update and updateKitchenDepartments of StaffService.
-- Tests: runs at concrete stores.
--
-- Amounts are whole kopecks, so that the rounding to two digits is exact; moments are
-- milliseconds, for sign-in seconds; ids and tokens are numbers, texts that are parsed are lists
-- of character codes. What the database generates (ids), the clock and the answers of the cash
-- register, the POS, the provider and the credentials are arguments. All functions are structural
-- recursions or have none, except the pages of Pos/Pending, whose fuel is the number of orders
-- that wait, plus one, and the inner loop of Auth/Base32, whose fuel is the number of its bits.
-- Not modelled: the listings, which sort and shape rows; the controllers, the websocket gateways
-- and the queues beyond the events that are sent, which are the framework's; cryptography, the
-- storage of files and the sockets below the clients of the POS, which are parameters or are left
-- out; the registration of restaurants, their settings and the reports, which write or read single
-- rows; the web applications.
pub mod Auth
pub mod Base
pub mod Database
pub mod Halls
pub mod History
pub mod Menu
pub mod Orders
pub mod Payments
pub mod Pos
pub mod Staff
pub mod Tenants
pub mod Tests
