-- ===== src/Economy/Tables.antt =====
-- The rows of the four tables (packages/game-economy/src/nestjs/economy-*.entity.ts), the errors of
-- packages/game-economy/src/errors.ts and the database, and what a statement of a transaction does.
use mortar.Prelude.{ℕ, ⊤, Bool, true, false, Option, none, some, List, leb, if◌then◌else◌}
use mortar.Prelude.Number.{max_safe}
use mortar.Economy.Kinds.{CreditKind, EntryKind}
use mortar.Economy.Check.{Field}

pub record Entry : Type 0 where
  pub id : ℕ
  pub seq : ℕ
  pub holder : ℕ
  pub currency : ℕ
  pub kind : EntryKind
  pub amount : ℕ
  pub balance_after : ℕ
  pub reason : ℕ
  pub reference : Option ℕ
  pub idempotency_key : ℕ
  pub refund_of : Option ℕ
  pub metadata : Option ℕ
  pub occurred_at : ℕ

pub record LotRow : Type 0 where
  pub entry_id : ℕ
  pub holder : ℕ
  pub currency : ℕ
  pub kind : CreditKind
  pub amount : ℕ
  pub remaining : ℕ
  pub seq : ℕ

pub record DrawRow : Type 0 where
  pub entry_id : ℕ
  pub lot_id : ℕ
  pub amount : ℕ

pub record BalanceRow : Type 0 where
  pub holder : ℕ
  pub currency : ℕ
  pub balance : ℕ

-- An entry as the service answers it.
pub record EntryView : Type 0 where
  pub id : ℕ
  pub seq : ℕ
  pub holder_id : ℕ
  pub currency : ℕ
  pub kind : EntryKind
  pub amount : ℕ
  pub balance_after : ℕ
  pub reason : ℕ
  pub reference : Option ℕ
  pub refund_of : Option ℕ
  pub metadata : Option ℕ
  pub occurred_at : ℕ

-- `next_seq` is what the identity column of the entries gives next.
pub record Tables : Type 0 where
  pub entries : List Entry
  pub lots : List LotRow
  pub draws : List DrawRow
  pub balances : List BalanceRow
  pub next_seq : ℕ

pub data Error : Type 0 where
  validation : List Field → Error
  not_found : ℕ → Error
  insufficient_balance : (balance asked : ℕ) → Error
  not_refundable : (amount remaining : ℕ) → Error
  ledger_key_reused : ℕ → Error
  -- `toAmount` beyond a safe integer, and `allocate` of an amount that is none.
  range_error : Error
  -- A constraint of the tables.
  constraint : Error
  -- `forget` of a holder with no name.
  unnamed_holder : Error
  -- `undefined` where the code says `!`.
  missing_row : Error

pub data Result {ℓ} (A : Type ℓ) : Type ℓ where
  ok : A → Result A
  err : Error → Result A

-- What a statement of a transaction does.
abbrev pub M : Type 0 → Type 0
M A = Tables → Result (A × Tables)

infixl 5 ◌>>=◌ ◌>>◌
abbrev pub ◌>>=◌ : {A B : Type 0} → M A → (A → M B) → M B
◌>>=◌ m f t = elim (m t) [ ok r ↦ f r.0 r.1 | err e ↦ err e ]

abbrev pub ◌>>◌ : {A B : Type 0} → M A → M B → M B
m >> k = m >>= λ _. k

module _ {A : Type 0} where
  abbrev pub pure : A → M A
  pure a t = ok (a, t)

  abbrev pub throw : Error → M A
  throw e t = err e

  abbrev pub require : Option A → Error → M A
  require none e t = err e
  require (some a) e t = ok (a, t)

  -- `runInTransaction`: all of it or none.
  abbrev pub transaction : M A → Tables → Result A × Tables
  transaction m t = elim (m t) [ ok r ↦ (ok r.0, r.1) | err e ↦ (err e, t) ]

abbrev pub check : Bool → Error → M ⊤
check true e t = ok (tt, t)
check false e t = err e

-- packages/game-economy/src/nestjs/to-amount.ts
abbrev pub to_amount : ℕ → M ℕ
to_amount n t = if leb n max_safe then ok (n, t) else err range_error
