-- ===== src/Lib.antt =====
-- mortar, a set of TypeScript packages for web back ends. What is modelled of it:
--
-- Economy: the premium-currency ledger of packages/game-economy/src. Kinds is kinds.ts, types.ts,
--   balance-of.ts, is-refundable.ts and spend-order.ts; Allocate is allocate.ts; Check is
--   nestjs/check-request.ts; Tables is the rows of the four tables and the errors; Store is the SQL
--   statements of nestjs/game-economy.service.ts, with the constraints that the migrations put on the
--   tables; Requests, Service and Reverse are the operations that write (credit, spend, refund,
--   reverse) and Queries the reads and forget. An operation is a
--   function on the tables, in a monad of state and errors; a transaction that fails leaves the
--   tables as they were. Writes of one holder and currency take turns at the balance row, so one
--   operation is one step. Ids come from a parameter, which is taken never to give one twice. The sum
--   of a ledger is taken in doubles, a parameter that is exact on safe numbers.
-- Idempotency: packages/idempotency/src. Record is entity.ts, with the unique index of its migration;
--   Service is service.ts, one function on the table per method, each a transaction of its own as
--   the row lock and the index make it; Claim is claim-in-flight.ts and interceptor.ts. The digest of
--   a payload, the printer and the parser of JSON and the ids of the table are parameters.
-- Messaging: packages/messaging/src. Segments is segments.ts, Gsm is gsm.ts, Pumping is pumping.ts and
--   Quiet is quiet.ts. A text is the list of its code points, a telephone number of its UTF-16 units;
--   the local hour and what a character decomposes to are parameters. The loop of nextAllowed runs
--   on the 48 steps that the source gives it.
-- Money: packages/money/src. Rounding is rounding.ts, over a number kept as the whole number below it
--   and the part above that; Allocate is allocate.ts. Ratios are whole; the arithmetic of floats is
--   a parameter, and what the theorems need of it is that whole numbers in the exact range are
--   computed exactly and that division rounds in order, as IEEE 754 has it.
--   In a rounding, the subtraction that gives the part above is a parameter, exact but from -1 to 0.
-- Printing: packages/printing/src/queue.ts. Job is print, whose loop runs on as many rounds as
--   attempts are allowed; Queue is enqueue and drain, where one round of drain is one step, since
--   jobs may be queued while another prints. The transport and the listeners are parameters.
-- Quantity: packages/quantity/src. Table is table.ts and Convert is convert.ts. Decimals are a parameter.
--   A chain of units is resolved on one round more than there are units, and the problems of a table
--   are kept without their sentences.
-- Realtime: packages/realtime/src. Wire is wire.ts; Backlog is server/backlog.ts (MemoryBacklog) and
--   server/resume.ts; Cursor is gaps.ts; Client is the part of client.ts that reads frames and the
--   answers to polls. The bound of a backlog is a parameter above 0.
-- Billing: packages/billing/src/plans.ts. The rounding of units times a price is a parameter.
-- Calendars: packages/calendars/src. Sync is sync.ts; Pull is the pull of nestjs/calendars.service.ts
--   for one connection, with the links that its table keeps and the writes that it makes. The
--   provider of the calendar is a parameter: what it lists, and what it answers to a write.
-- Clock: packages/clock/src/interval.ts. The loop of intersectAll runs on as many rounds as the two
--   lists have intervals, since each round moves on in one of them.
-- Redis: packages/redis/src/rate-limit.ts, with the script that it runs. The sorted sets of Redis are a
--   parameter with the documented laws of the commands, and so is what a run of the script draws; the
--   clock of its callers is taken to be the one that keys expire by.
-- Vouchers: packages/vouchers/src. Ledger is ledger.ts and what nestjs/vouchers.service.ts does to one
--   voucher whose row it has found and locked, with the constraints of its migration. A number that
--   is not whole is kept as the whole number below it and the part that it lies above that. Columns
--   are read, summed and written in doubles, a parameter that is exact on safe numbers.
--   Codes is codes.ts, with how nestjs/vouchers.service.ts draws a code, issues a voucher under it and
--   finds it again; the capitals of a letter and the random draws are parameters.
-- Workflow: packages/workflow/src. Machine is machine/definition.ts and machine/machine.ts; the search
--   for reachable states runs one pass more than there are transitions, since each pass but the last
--   reaches the end of one more transition. Links is links/encoding.ts and links/token.ts, over the
--   bytes and UTF-16 units that they work on; the comparison of signatures runs on as many rounds as
--   the longer text has units. JSON, UTF-8 and the digest are parameters. WorkingDays is
--   machine/working-days.ts, where the day that an instant falls on in a zone is a parameter; the
--   walk keeps to the source's own limit of steps, and the count runs on one round more than there
--   are days between the two instants.
-- Prelude: what they share: Boolean tests, lists measured by native numbers, integers, JavaScript
--   numbers and the stable sort of Array.prototype.sort.
--
-- Identifiers and texts that are only compared are numbers, except where their length or form is
-- checked (Economy.Check) or they are joined (Workflow). Amounts that passed a check are natural
-- numbers, with the bound of a safe integer written out; instants are natural numbers of
-- milliseconds. Not modelled: the database driver, the network, timers, the modules of the web
-- framework, and the other packages.
pub mod Prelude
pub mod Billing
pub mod Calendars
pub mod Clock
pub mod Economy
pub mod Idempotency
pub mod Messaging
pub mod Money
pub mod Printing
pub mod Quantity
pub mod Realtime
pub mod Redis
pub mod Vouchers
pub mod Workflow
