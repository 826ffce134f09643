-- ===== src/Economy/Tests.antt =====
-- Ledgers and requests to try the theorems of packages/game-economy on.
use mortar.Prelude.{
  ℕ, ◌≤◌, ◌<◌, ◌≡◌, refl, subst, true, none, some, List, [], ◌∷◌, filter, arith, ◌==◌,
  if◌then◌else◌, All, ◌⊎◌,
}
use mortar.Prelude.Int.{pos, ◌+ℤ◌}
use mortar.Prelude.Number.{Doubles, whole}
use mortar.Economy.Kinds.{is_spend_order, CreditKind, EntryKind}
use mortar.Economy.Check.{Text}
use mortar.Economy.Allocate.{Lot, Draw, draws_for, is_open}
use mortar.Economy.Store.{view, lock, set_balance, insert_lot}
use mortar.Economy.Tables.{Entry, EntryView, Tables, Result, ok, err, insufficient_balance}
use mortar.Economy.Service.{credit, spend, refund, credit_steps, credit_locked, credit_new}
use mortar.Economy.Reverse.{reverse}
use mortar.Economy.Requests.{
  Env, Words, MovementRequest, RefundRequest, check_movement, written, insert,
}
use mortar.Economy.Queries.{reconcile, forget}
use mortar.Economy.Queries.Reconciled.{reconcile_agrees}
use mortar.Economy.Queries.Forgotten.{
  HoldsNothing, IsGone, entries_of, lots_of, balances_of, draws_but, forget-IsGone,
}
use mortar.Economy.Allocate.Order.{InOrder, draws_for-InOrder}
use mortar.Economy.Service.Ledger.{IsSound}
use mortar.Economy.Service.Kept.{credit-IsSound, spend-IsSound}
use mortar.Economy.Service.Back.{refund-IsSound}
use mortar.Economy.Service.Reversals.{reverse-IsSound}
use mortar.Economy.Service.Outcome.{Spendable, Spent, spend_outcome}
use mortar.Economy.Service.Again.{credit_again}

-- `123e4567-e89b-12d3-a456-426614174000`
abbrev a_uuid : Text
a_uuid =
    b'1' ∷ b'2' ∷ b'3' ∷ b'e' ∷ b'4' ∷ b'5' ∷ b'6' ∷ b'7' ∷ b'-' ∷ b'e' ∷ b'8' ∷ b'9' ∷ b'b' ∷ b'-'
    ∷ b'1' ∷ b'2' ∷ b'd' ∷ b'3' ∷ b'-' ∷ b'a' ∷ b'4' ∷ b'5' ∷ b'6' ∷ b'-' ∷ b'4' ∷ b'2' ∷ b'6'
    ∷ b'6' ∷ b'1' ∷ b'4' ∷ b'1' ∷ b'7' ∷ b'4' ∷ b'0' ∷ b'0' ∷ b'0' ∷ []

-- The entry with the first number has a UUID; holders, currencies and keys have short names.
abbrev text_of : ℕ → Text
text_of n = if n == 1 then a_uuid else b'g' ∷ b'o' ∷ b'l' ∷ b'd' ∷ []

abbrev env : Env
env = record {
  text_of = text_of;
  uuid = λ n. n;
  now = 100;
  order = CreditKind.grant ∷ CreditKind.purchase ∷ [];
}

abbrev empty : Tables
empty = record { entries = []; lots = []; draws = []; balances = []; next_seq = 1 }

empty-IsSound : IsSound env.uuid empty
empty-IsSound = record {
  lots_distinct = tt;
  lots_le = tt;
  fresh = λ k le. record { lots = tt; draws = tt; refunds = refl };
  given_back = λ p e. cc;
  agrees = λ h c. record { cached = refl; ledger = refl };
}

abbrev words : ℕ → Words
words key = record {
  reason = 7;
  reference = none;
  idempotency_key = key;
  metadata = none;
  occurred_at = none;
}

abbrev asks : ℕ → ℕ → MovementRequest
asks amount key = record { currency = 5; amount = whole (pos amount); words = words key }

abbrev ten : Entry
ten = record {
  id = 1;
  seq = 1;
  holder = 4;
  currency = 5;
  kind = EntryKind.credit CreditKind.purchase;
  amount = 10;
  balance_after = 10;
  reason = 7;
  reference = none;
  idempotency_key = 20;
  refund_of = none;
  metadata = none;
  occurred_at = 100;
}

-- Holder 4 bought ten.
abbrev bought_ten : Tables
bought_ten = record {
  entries = ten ∷ [];
  lots =
      record {
        entry_id = 1;
        holder = 4;
        currency = 5;
        kind = CreditKind.purchase;
        amount = 10;
        remaining = 10;
        seq = 1;
      }
      ∷ [];
  draws = [];
  balances = record { holder = 4; currency = 5; balance = 10 } ∷ [];
  next_seq = 2;
}

buy_ten : credit env 4 CreditKind.purchase (asks 10 20) empty ≡ (ok (view ten), bought_ten)
unfolding credit credit_steps check_movement credit_locked lock written credit_new insert insert_lot
    set_balance
buy_ten = refl

credit-IsSound_example : IsSound env.uuid (credit env 4 CreditKind.purchase (asks 10 20) empty).1
credit-IsSound_example =
    credit-IsSound env (λ i j e. e) 4 CreditKind.purchase (asks 10 20) empty empty-IsSound

bought_ten-IsSound : IsSound env.uuid bought_ten
bought_ten-IsSound =
    subst (λ (s : Result EntryView × Tables). IsSound env.uuid s.1) buy_ten
      (credit-IsSound env (λ i j e. e) 4 CreditKind.purchase (asks 10 20) empty empty-IsSound)

spend-IsSound_example : IsSound env.uuid (spend env 4 (asks 3 21) bought_ten).1
spend-IsSound_example = spend-IsSound env (λ i j e. e) 4 (asks 3 21) bought_ten bought_ten-IsSound

abbrev back : ℕ → RefundRequest
back key = record { purchase_id = 1; words = words key }

refund-IsSound_example : IsSound env.uuid (refund env 4 (back 22) bought_ten).1
refund-IsSound_example = refund-IsSound env (λ i j e. e) 4 (back 22) bought_ten bought_ten-IsSound

reverse-IsSound_example : IsSound env.uuid (reverse env 4 (back 22) bought_ten).1
reverse-IsSound_example = reverse-IsSound env (λ i j e. e) 4 (back 22) bought_ten bought_ten-IsSound

three-Spendable : Spendable env 4 (asks 3 21) 3 bought_ten
unfolding check_movement is_spend_order
three-Spendable = record {
  checked = refl;
  fits = omega arith;
  seq = omega arith;
  ordered = refl;
  lots_fit = refl;
  unused = refl;
}

spend_outcome_example :
    ((10 < 3)
      × (spend env 4 (asks 3 21) bought_ten ≡ (err (insufficient_balance 10 3), bought_ten)))
    ⊎ ((3 ≤ 10)
        × ((v : EntryView) × (t' : Tables) × (spend env 4 (asks 3 21) bought_ten ≡ (ok v, t'))
            × Spent env 4 5 3 bought_ten t'))
spend_outcome_example =
    spend_outcome env 4 3 (asks 3 21) bought_ten bought_ten-IsSound three-Spendable

credit_again_example :
    credit env 4 CreditKind.purchase (asks 10 20) bought_ten ≡ (ok (view ten), bought_ten)
credit_again_example =
    credit_again env 4 CreditKind.purchase (asks 10 20) empty bought_ten (view ten) buy_ten

-- Arithmetic that does not round.
abbrev unrounded : Doubles
unrounded = record {
  plus = λ a b. a +ℤ b;
  number = λ n. n;
  string = λ n. n;
  plus_exact = λ a b h. refl;
  number_exact = λ n h. refl;
  string_exact = λ n h. refl;
}

reconcile_agrees_example :
    reconcile unrounded 4 5 bought_ten
    ≡ ok (record { balance = 10; ledger = pos 10; lots = 10; agrees = true }, bought_ten)
reconcile_agrees_example =
    reconcile_agrees unrounded 4 5 bought_ten bought_ten-IsSound (omega arith)

abbrev holds_none : Tables
holds_none = record {
  entries = ten ∷ record ten { id = 9; holder = 3; seq = 2 } ∷ [];
  lots = [];
  draws =
      record { entry_id = ten.id; lot_id = 1; amount = 2 }
      ∷ record { entry_id = 9; lot_id = 2; amount = 2 }
      ∷ [];
  balances = record { holder = 4; currency = 5; balance = 0 } ∷ [];
  next_seq = 3;
}

abbrev without_four : Tables
without_four = record {
  entries = record ten { id = 9; holder = 3; seq = 2 } ∷ [];
  lots = [];
  draws = record { entry_id = 9; lot_id = 2; amount = 2 } ∷ [];
  balances = [];
  next_seq = 3;
}

forget-IsGone_example :
    HoldsNothing 4 holds_none.balances
    × All (λ (e : Entry). e.holder ≡ 4 → e.occurred_at < 101) holds_none.entries
    × IsGone 4 holds_none.entries without_four
    × (draws_but 4 holds_none.entries without_four ≡ draws_but 4 holds_none.entries holds_none)
    × (entries_of 3 without_four ≡ entries_of 3 holds_none)
    × (lots_of 3 without_four ≡ lots_of 3 holds_none)
    × (balances_of 3 without_four ≡ balances_of 3 holds_none)
unfolding forget
forget-IsGone_example = forget-IsGone env 4 101 3 holds_none without_four refl (λ e. cc)

abbrev two_lots : List Lot
two_lots =
    record { id = 1; kind = CreditKind.purchase; amount = 10; remaining = 10; seq = 1 }
    ∷ record { id = 2; kind = CreditKind.grant; amount = 5; remaining = 5; seq = 2 }
    ∷ []

abbrev seven_draws : List Draw
seven_draws = record { lot_id = 2; amount = 5 } ∷ record { lot_id = 1; amount = 2 } ∷ []

draw_seven : draws_for two_lots 7 env.order ≡ some seven_draws
unfolding draws_for
draw_seven = refl

draws_for-InOrder_example :
    let opened = filter is_open two_lots in
    All (λ a. All (InOrder env.order seven_draws a) opened) opened
unfolding is_spend_order
draws_for-InOrder_example =
    draws_for-InOrder two_lots 7 env.order seven_draws ((λ e. cc, tt), (tt, tt)) refl draw_seven
