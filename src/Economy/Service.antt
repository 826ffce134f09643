-- ===== src/Economy/Service.antt =====
-- packages/game-economy/src/nestjs/game-economy.service.ts. Writes of one holder and currency take
-- turns at the balance row, so an operation is one step on the tables. An amount that a check has
-- passed is a natural number from there on.
pub mod Effects
pub mod Ledger
pub mod Writes
pub mod Sound
pub mod Found
pub mod Kept
pub mod Back
pub mod Reversals
pub mod Spending
pub mod Outcome
pub mod Again
use mortar.Prelude.{
  ℕ, zero, suc, ◌+◌, ◌-◌, ⊤, Bool, true, false, not, ◌&&◌, ◌||◌, Option, none, some, List, [], ◌∷◌,
  ◌++◌, map, filter, find, any, take, drop, length, sum_by, ltb, leb, ◌==◌, if◌then◌else◌,
}
use mathlib.Core.Option
use mortar.Prelude.Int.{ℤ, pos, negsuc, ◌-ℤ◌}
use mortar.Prelude.Number.{Number, whole, safe_positive, max_safe}
use mortar.Prelude.Sort.{sort_by}
use mortar.Economy.Kinds.{
  CreditKind, DebitKind, EntryKind, credit_eq, kind_eq, Movement, is_refundable,
}
use mortar.Economy.Allocate.{Lot, Draw, Allocation, range_error, allocated, allocate}
use mortar.Economy.Check.{Text, Field, Asked, check_request, is_uuid}
use mortar.Economy.Store.{
  lock, set_balance, keyed, gives_back, some_eq, insert_row, insert_lot, draw, open_lots, lot_of,
  balance_at, entry_view_of,
}
use mortar.Economy.Tables.{
  Entry, EntryView, LotRow, DrawRow, BalanceRow, Tables, Error, validation, not_found,
  insufficient_balance, not_refundable, ledger_key_reused, constraint, missing_row, Result, ok, err,
  M, ◌>>=◌, ◌>>◌, pure, throw, require, transaction, check, to_amount,
}
use mortar.Economy.Requests.{
  Env, Expected, MovementRequest, RefundRequest, Words, asked, check_movement, check_refund,
  entry_of, insert, matches, non_negative, or_earlier, or_now, passed, same_option, written,
  written_as,
}

abbrev pub lot_row : CreditKind → EntryView → LotRow
lot_row kind e = record {
  entry_id = e.id;
  holder = e.holder_id;
  currency = e.currency;
  kind = kind;
  amount = e.amount;
  remaining = e.amount;
  seq = e.seq;
}

-- The rest of `credit`, under the lock.
unfoldable pub credit_new : Env → ℕ → CreditKind → ℕ → ℕ → Words → ℕ → M EntryView
credit_new env holder kind currency amount words balance = do
  entry ←
      insert env holder (EntryKind.credit kind) currency amount words (pos (balance + amount)) none
  insert_lot (lot_row kind entry)
  set_balance holder currency entry.balance_after
  pure entry

unfoldable pub credit_locked : Env → ℕ → CreditKind → ℕ → ℕ → Words → M EntryView
credit_locked env holder kind currency amount words = do
  balance ← lock holder currency
  earlier ← written holder words.idempotency_key (record {
    kind = EntryKind.credit kind;
    currency = currency;
    amount = amount;
    refund_of = none;
  })
  or_earlier earlier (credit_new env holder kind currency amount words balance)

unfoldable pub credit_steps : Env → ℕ → CreditKind → MovementRequest → M EntryView
credit_steps env holder kind r = do
  amount ← check_movement env holder r
  credit_locked env holder kind r.currency amount r.words

unfoldable pub credit : Env → ℕ → CreditKind → MovementRequest → Tables → Result EntryView × Tables
credit env holder kind r = transaction (credit_steps env holder kind r)

pub grant : Env → ℕ → MovementRequest → Tables → Result EntryView × Tables
unfolding credit
grant env holder = credit env holder CreditKind.grant

pub purchase : Env → ℕ → MovementRequest → Tables → Result EntryView × Tables
unfolding credit
purchase env holder = credit env holder CreditKind.purchase

-- The allocation that a spend draws, or its refusal.
unfoldable pub draws_of : ℕ → ℕ → Allocation → M (List Draw)
draws_of balance amount Allocation.range_error t = err Error.range_error
draws_of balance amount (allocated none) t = err (insufficient_balance balance amount)
draws_of balance amount (allocated (some ds)) t = ok (ds, t)

unfoldable pub debit_rest : ℕ → ℕ → List Draw → EntryView → M EntryView
debit_rest holder currency ds entry = do
  draw entry.id ds
  set_balance holder currency entry.balance_after
  pure entry

-- What every debit writes: the entry, its draws and the balance.
unfoldable pub debit_new :
    Env → ℕ → DebitKind → ℕ → ℕ → Words → ℕ → Option ℕ → List Draw → M EntryView
debit_new env holder kind currency amount words balance refund_of ds = do
  entry ←
      insert env holder (EntryKind.debit kind) currency amount words (pos balance -ℤ pos amount)
        refund_of
  debit_rest holder currency ds entry

-- What a spend does with the lots that it read.
unfoldable pub spend_from : Env → ℕ → ℕ → ℕ → Words → ℕ → List Lot → M EntryView
spend_from env holder currency amount words balance lots = do
  ds ← draws_of balance amount (allocate lots (whole (pos amount)) env.order)
  debit_new env holder DebitKind.spend currency amount words balance none ds

unfoldable pub spend_new : Env → ℕ → ℕ → ℕ → Words → ℕ → M EntryView
spend_new env holder currency amount words balance = do
  lots ← open_lots holder currency
  spend_from env holder currency amount words balance lots

unfoldable pub spend_locked : Env → ℕ → ℕ → ℕ → Words → M EntryView
spend_locked env holder currency amount words = do
  balance ← lock holder currency
  earlier ← written holder words.idempotency_key (record {
    kind = EntryKind.debit DebitKind.spend;
    currency = currency;
    amount = amount;
    refund_of = none;
  })
  or_earlier earlier (spend_new env holder currency amount words balance)

unfoldable pub spend_steps : Env → ℕ → MovementRequest → M EntryView
spend_steps env holder r = do
  amount ← check_movement env holder r
  spend_locked env holder r.currency amount r.words

unfoldable pub spend : Env → ℕ → MovementRequest → Tables → Result EntryView × Tables
spend env holder r = transaction (spend_steps env holder r)

-- The purchase that a refund or a reversal names.
abbrev pub bought : Option LotRow → Option LotRow
bought none = none
bought (some lot) = if credit_eq lot.kind CreditKind.purchase then some lot else none

-- The rest of `refund`, with the lot as it is read again under the lock.
unfoldable pub refund_new : Env → ℕ → ℕ → LotRow → Words → ℕ → M EntryView
refund_new env holder amount lot words balance = do
  to_amount lot.remaining
  check (is_refundable lot.kind amount lot.remaining) (not_refundable amount lot.remaining)
  debit_new env holder DebitKind.refund lot.currency amount words balance (some lot.entry_id)
      (record { lot_id = lot.entry_id; amount = amount } ∷ [])

-- The lot read again under the lock: a spend may have drawn on it meanwhile.
unfoldable pub read_again : ℕ → RefundRequest → M LotRow
read_again holder r t = require (lot_of holder r.purchase_id t) missing_row t

unfoldable pub refund_unwritten : Env → ℕ → RefundRequest → ℕ → ℕ → M EntryView
refund_unwritten env holder r amount balance = do
  lot ← read_again holder r
  refund_new env holder amount lot r.words balance

-- `found` is the lot as it was read before the lock.
unfoldable pub refund_locked : Env → ℕ → RefundRequest → LotRow → M EntryView
refund_locked env holder r found = do
  balance ← lock holder found.currency
  amount ← to_amount found.amount
  earlier ← written holder r.words.idempotency_key (record {
    kind = EntryKind.debit DebitKind.refund;
    currency = found.currency;
    amount = amount;
    refund_of = some found.entry_id;
  })
  or_earlier earlier (refund_unwritten env holder r amount balance)

-- `lotOf`, if it is a purchase.
unfoldable pub find_bought : ℕ → RefundRequest → M LotRow
find_bought holder r t =
    require (bought (lot_of holder r.purchase_id t)) (not_found r.purchase_id) t

unfoldable pub refund_steps : Env → ℕ → RefundRequest → M EntryView
refund_steps env holder r = do
  check_refund env holder r
  found ← find_bought holder r
  refund_locked env holder r found

unfoldable pub refund : Env → ℕ → RefundRequest → Tables → Result EntryView × Tables
refund env holder r = transaction (refund_steps env holder r)
