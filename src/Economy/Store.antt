-- ===== src/Economy/Store.antt =====
-- The four tables of the ledger, with the constraints that the migrations of packages/game-economy
-- put on them, and the SQL statements of packages/game-economy/src/nestjs/game-economy.service.ts
-- as functions on them. A statement that breaks a constraint fails; a transaction that fails leaves
-- the tables as they were.
pub mod Monad
pub mod Rows
pub mod Draws
use mortar.Prelude.{
  ℕ, suc, ◌+◌, ◌-◌, ⊤, Bool, true, false, not, ◌&&◌, ◌||◌, Option, none, some, List, [], ◌∷◌, ◌++◌,
  map, filter, any, all, find, ltb, leb, ◌==◌, if◌then◌else◌,
}
use mortar.Prelude.Int.{ℤ, pos, negsuc}
use mortar.Prelude.Number.{max_safe}
use mortar.Economy.Kinds.{CreditKind, EntryKind, credit, debit, spend, refund, reversal}
use mortar.Economy.Allocate.{Lot, Draw, is_open}
use mortar.Economy.Check.{Field}
use mortar.Economy.Tables.{
  BalanceRow, DrawRow, Entry, EntryView, Error, LotRow, M, Result, Tables, check, constraint, err,
  insufficient_balance, ledger_key_reused, missing_row, not_found, not_refundable, ok, pure,
  range_error, require, throw, to_amount, transaction, unnamed_holder, validation, ◌>>=◌, ◌>>◌,
}

abbrev pub of_holder_currency : ℕ → ℕ → BalanceRow → Bool
of_holder_currency holder currency row = row.holder == holder && row.currency == currency

abbrev pub zero_balance : ℕ → ℕ → BalanceRow
zero_balance holder currency = record { holder = holder; currency = currency; balance = 0 }

-- INSERT … ON CONFLICT DO NOTHING
abbrev pub add_balance : ℕ → ℕ → List BalanceRow → List BalanceRow
add_balance holder currency rows =
    if any (of_holder_currency holder currency) rows
    then rows
    else zero_balance holder currency ∷ rows

abbrev pub put_balance : ℕ → ℕ → ℕ → List BalanceRow → List BalanceRow
put_balance holder currency n [] = []
put_balance holder currency n (row ∷ rows) =
    (if of_holder_currency holder currency row then record row { balance = n } else row)
    ∷ put_balance holder currency n rows

abbrev pub balance_at : ℕ → ℕ → List BalanceRow → Option ℕ
balance_at holder currency [] = none
balance_at holder currency (row ∷ rows) =
    if of_holder_currency holder currency row
    then some row.balance
    else balance_at holder currency rows

-- `lock`: the balance row, made if missing. Writes of one holder and currency take turns at it.
unfoldable pub lock : ℕ → ℕ → M ℕ
lock holder currency t =
    (do
      balance ←
          require (balance_at holder currency (add_balance holder currency t.balances)) missing_row
      to_amount balance)
      (record t { balances = add_balance holder currency t.balances })

unfoldable pub set_balance : ℕ → ℕ → ℕ → M ⊤
set_balance holder currency n t =
    ok (tt, record t { balances = put_balance holder currency n t.balances })

abbrev pub has_key : ℕ → ℕ → Entry → Bool
has_key holder key e = e.holder == holder && e.idempotency_key == key

abbrev pub keyed : ℕ → ℕ → Tables → Option Entry
keyed holder key t = find (has_key holder key) t.entries

abbrev pub some_eq : Option ℕ → ℕ → Bool
some_eq none n = false
some_eq (some m) n = m == n

abbrev pub gives_back : ℕ → Entry → Bool
gives_back purchase e = some_eq e.refund_of purchase

-- `refund_of` is set exactly on a refund and a reversal.
abbrev pub pairs_refund : EntryKind → Option ℕ → Bool
pairs_refund (credit _) none = true
pairs_refund (credit _) (some _) = false
pairs_refund (debit spend) none = true
pairs_refund (debit spend) (some _) = false
pairs_refund (debit refund) none = false
pairs_refund (debit refund) (some _) = true
pairs_refund (debit reversal) none = false
pairs_refund (debit reversal) (some _) = true

-- No other entry gives the same purchase back.
abbrev pub refund_free : Option ℕ → List Entry → Bool
refund_free none es = true
refund_free (some p) es = not (any (gives_back p) es)

-- INSERT INTO mortar_economy_entries, with its checks and unique indexes.
unfoldable pub insert_row : Entry → M ⊤
insert_row e t =
    if ltb 0 e.amount
      && pairs_refund e.kind e.refund_of
      && not (any (has_key e.holder e.idempotency_key) t.entries)
      && refund_free e.refund_of t.entries
    then ok (tt, record t { entries = e ∷ t.entries; next_seq = suc t.next_seq })
    else err constraint

abbrev pub is_lot : ℕ → LotRow → Bool
is_lot id lot = lot.entry_id == id

abbrev pub find_lot : ℕ → List LotRow → Option LotRow
find_lot id [] = none
find_lot id (lot ∷ lots) = if is_lot id lot then some lot else find_lot id lots

unfoldable pub insert_lot : LotRow → M ⊤
insert_lot row t =
    if not (any (is_lot row.entry_id) t.lots) && leb row.remaining row.amount
    then ok (tt, record t { lots = row ∷ t.lots })
    else err constraint

-- UPDATE mortar_economy_lots SET remaining = remaining - n WHERE entry_id = id
abbrev pub take_out : ℕ → ℕ → List LotRow → List LotRow
take_out id n [] = []
take_out id n (lot ∷ lots) =
    (if is_lot id lot then record lot { remaining = lot.remaining - n } else lot)
    ∷ take_out id n lots

-- Whether that keeps every `remaining` at zero or more.
abbrev pub holds : ℕ → ℕ → List LotRow → Bool
holds id n [] = true
holds id n (lot ∷ lots) = (not (is_lot id lot) || leb n lot.remaining) && holds id n lots

abbrev pub same_draw : ℕ → ℕ → DrawRow → Bool
same_draw entry lot d = d.entry_id == entry && d.lot_id == lot

abbrev pub draw_row : ℕ → Draw → DrawRow
draw_row entry d = record { entry_id = entry; lot_id = d.lot_id; amount = d.amount }

-- One round of `draw`: the row, and the lot that it takes from.
unfoldable pub draw_one : ℕ → Draw → M ⊤
draw_one entry d t =
    if ltb 0 d.amount
      && any (is_lot d.lot_id) t.lots
      && not (any (same_draw entry d.lot_id) t.draws)
      && holds d.lot_id d.amount t.lots
    then ok (
      tt,
      record t { draws = draw_row entry d ∷ t.draws; lots = take_out d.lot_id d.amount t.lots },
    )
    else err constraint

unfoldable pub draw : ℕ → List Draw → M ⊤
draw entry [] = pure tt
draw entry (d ∷ ds) = draw_one entry d >> draw entry ds

abbrev pub owned_open : ℕ → ℕ → LotRow → Bool
owned_open holder currency lot =
    lot.holder == holder && lot.currency == currency && ltb 0 lot.remaining

abbrev pub to_lot : LotRow → Lot
to_lot r = record {
  id = r.entry_id;
  kind = r.kind;
  amount = r.amount;
  remaining = r.remaining;
  seq = r.seq;
}

unfoldable pub opened_lots : ℕ → ℕ → List LotRow → List Lot
opened_lots holder currency lots = map to_lot (filter (owned_open holder currency) lots)

-- Three columns of a row go through `toAmount`.
abbrev pub is_safe_lot : LotRow → Bool
is_safe_lot r = leb r.amount max_safe && leb r.remaining max_safe && leb r.seq max_safe

abbrev pub are_safe : ℕ → ℕ → List LotRow → Bool
are_safe holder currency lots = all is_safe_lot (filter (owned_open holder currency) lots)

-- `openLots`
unfoldable pub open_lots : ℕ → ℕ → M (List Lot)
open_lots holder currency t =
    if are_safe holder currency t.lots
    then ok (opened_lots holder currency t.lots, t)
    else err range_error

abbrev pub owns : ℕ → Option LotRow → Option LotRow
owns holder none = none
owns holder (some lot) = if lot.holder == holder then some lot else none

-- `lotOf`: the lot of an entry, if it is the holder's.
unfoldable pub lot_of : ℕ → ℕ → Tables → Option LotRow
lot_of holder entry t = owns holder (find_lot entry t.lots)

abbrev pub view : Entry → EntryView
view e = record {
  id = e.id;
  seq = e.seq;
  holder_id = e.holder;
  currency = e.currency;
  kind = e.kind;
  amount = e.amount;
  balance_after = e.balance_after;
  reason = e.reason;
  reference = e.reference;
  refund_of = e.refund_of;
  metadata = e.metadata;
  occurred_at = e.occurred_at;
}

-- `entryViewOf`: three columns go through `toAmount`.
unfoldable pub entry_view_of : Entry → M EntryView
entry_view_of e t =
    if leb e.seq max_safe && leb e.amount max_safe && leb e.balance_after max_safe
    then ok (view e, t)
    else err range_error
