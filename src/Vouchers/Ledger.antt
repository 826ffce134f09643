-- ===== src/Vouchers/Ledger.antt =====
-- packages/vouchers/src/ledger.ts, and the operations of nestjs/vouchers.service.ts on a voucher
-- that `locked` has found, with its entries in the order in which they are read, a new one first.
pub mod Spent
use mortar.Prelude.{
  ℕ, suc, Bool, true, false, not, ◌&&◌, ◌||◌, Option, none, some, List, [], ◌∷◌, filter, ltb, leb,
  ◌==◌, if◌then◌else◌,
}
use mortar.Prelude.Int.{ℤ, pos, negsuc, minus, ◌+ℤ◌, ltb_ℤ, leb_ℤ}
use mortar.Prelude.Number.{Doubles}

pub data Denomination : Type 0 where
  money units : Denomination

pub data EntryKind : Type 0 where
  issued redeemed released expired adjusted : EntryKind

-- Where a number lies between two whole ones.
pub data Part : Type 0 where
  below_half half above_half : Part

-- A JavaScript number as the ledger looks at it: whole, above a whole number by a part of one, or
-- not finite.
pub data Amount : Type 0 where
  whole : ℤ → Amount
  between : ℤ → Part → Amount
  not_finite : Amount

abbrev pub is_positive : EntryKind → Bool
is_positive issued = true
is_positive released = true
is_positive adjusted = true
is_positive redeemed = false
is_positive expired = false

-- An entry, as its table holds it: the amount is a bigint above 0.
pub record LedgerEntry : Type 0 where
  pub kind : EntryKind
  pub amount : ℕ
  pub subject : Option ℕ

-- `balanceOf` over rows read from the database; it adds in doubles, in the order of the rows.
module _ (doubles : Doubles) where
  -- `signOf(kind) * Math.abs(Number(amount))`
  abbrev pub signed : LedgerEntry → ℤ
  signed e =
      if is_positive e.kind then pos (doubles.number e.amount) else minus (doubles.number e.amount)

  abbrev pub moved : ℤ → LedgerEntry → ℤ
  moved sum e = doubles.plus sum (signed e)

  unfoldable pub balance_from : ℤ → List LedgerEntry → ℤ
  balance_from sum [] = sum
  balance_from sum (e ∷ es) = balance_from (moved sum e) es

  unfoldable pub balance_of : List LedgerEntry → ℤ
  unfolding balance_from
  balance_of = balance_from (pos 0)

pub record Voucher : Type 0 where
  pub denomination : Denomination
  pub issued_amount : ℕ
  pub balance : ℤ
  pub expires_at : Option ℕ
  pub cancelled_at : Option ℕ
  pub service_id : Option ℕ

pub data Refusal : Type 0 where
  is_cancelled is_expired not_enough wrong_service nothing_requested : Refusal

abbrev pub is_set : Option ℕ → Bool
is_set none = false
is_set (some n) = true

abbrev pub has_passed : Option ℕ → ℕ → Bool
has_passed none now = false
has_passed (some at) now = leb at now

-- No finite amount above 0, or a part of a unit.
abbrev pub requests_nothing : Denomination → Amount → Bool
requests_nothing d not_finite = true
requests_nothing d (whole n) = leb_ℤ n (pos 0)
requests_nothing units (between n part) = true
requests_nothing money (between n part) = ltb_ℤ n (pos 0)

abbrev pub is_for_other : Option ℕ → Option ℕ → Bool
is_for_other none asked = false
is_for_other (some s) none = true
is_for_other (some s) (some asked) = not (s == asked)

abbrev pub exceeds : Amount → ℤ → Bool
exceeds (whole n) balance = ltb_ℤ balance n
exceeds (between n part) balance = leb_ℤ balance n
exceeds not_finite balance = false

-- `canRedeem`: none when it may.
unfoldable pub can_redeem : Voucher → Amount → Option ℕ → ℕ → Option Refusal
can_redeem v amount service now =
    if is_set v.cancelled_at
    then some is_cancelled
    else (if has_passed v.expires_at now
        then some is_expired
        else (if requests_nothing v.denomination amount
            then some nothing_requested
            else (if is_for_other v.service_id service
                then some wrong_service
                else (if exceeds amount v.balance then some not_enough else none))))

-- `Math.abs`
abbrev pub other_part : Part → Part
other_part below_half = above_half
other_part half = half
other_part above_half = below_half

abbrev pub abs_of : Amount → Amount
abs_of (whole (pos n)) = whole (pos n)
abs_of (whole (negsuc n)) = whole (pos (suc n))
abs_of (between (pos n) part) = between (pos n) part
abs_of (between (negsuc n) part) = between (pos n) (other_part part)
abs_of not_finite = not_finite

-- `Math.round`, which rounds a half up.
unfoldable pub round : Amount → Option ℤ
unfolding ◌+ℤ◌
round (whole n) = some n
round (between n below_half) = some n
round (between n half) = some (n +ℤ pos 1)
round (between n above_half) = some (n +ℤ pos 1)
round not_finite = none

pub record Account : Type 0 where
  pub voucher : Voucher
  pub entries : List LedgerEntry

pub data Outcome : Type 0 where
  done : Account → Outcome
  refused : Refusal → Outcome
  -- `release` with nothing taken.
  nothing_taken : Outcome
  -- A constraint of the tables.
  constraint : Outcome

abbrev pub unless_refused : Option Refusal → Outcome → Outcome
unless_refused none o = o
unless_refused (some why) o = refused why

abbrev pub is_about : ℕ → LedgerEntry → Bool
is_about subject e = elim (e.subject) [ none ↦ false | some s ↦ s == subject ]

-- A column of type bigint holds no more.
abbrev max_bigint : ℕ
max_bigint = 9223372036854775807

module _ (doubles : Doubles) where
  -- `Number(voucher.balance)`
  abbrev pub number_ℤ : ℤ → ℤ
  number_ℤ (pos n) = pos (doubles.number n)
  number_ℤ (negsuc n) = minus (doubles.number (suc n))

  -- `String(balance)`
  abbrev pub string_ℤ : ℤ → ℤ
  string_ℤ (pos n) = pos (doubles.string n)
  string_ℤ (negsuc n) = minus (doubles.string (suc n))

  -- The voucher that `redeem` decides on.
  abbrev pub seen : Voucher → Voucher
  seen v = record v { balance = number_ℤ v.balance }

  -- The constraints on an amount and on a balance, with the number that is not negative.
  unfoldable pub written : Account → EntryKind → Option ℤ → Option ℕ → Outcome
  unfolding balance_of
  written a kind none subject = constraint
  written a kind (some (negsuc n)) subject = constraint
  written a kind (some (pos n)) subject =
      let amount = doubles.string n in
      let entries = record { kind = kind; amount = amount; subject = subject } ∷ a.entries in
      let balance = string_ℤ (balance_of doubles entries) in
      if ltb 0 amount
        && leb amount max_bigint
        && leb_ℤ (pos 0) balance
        && leb_ℤ balance (pos a.voucher.issued_amount)
      then done (record { voucher = record a.voucher { balance = balance }; entries = entries })
      else constraint

  -- `apply`: the entry, and the balance set to what the entries come to.
  unfoldable pub apply : Account → EntryKind → Amount → Option ℕ → Outcome
  unfolding written round
  apply a kind amount subject = written a kind (round (abs_of amount)) subject

  unfoldable pub redeem : Account → Amount → ℕ → Option ℕ → ℕ → Outcome
  unfolding can_redeem apply
  redeem a amount subject service now =
      unless_refused (can_redeem (seen a.voucher) amount service now)
        (apply a redeemed amount (some subject))

  unfoldable pub outstanding : ℕ → List LedgerEntry → ℤ
  unfolding balance_of
  outstanding subject es = balance_of doubles (filter (is_about subject) es)

  -- What was taken for the subject and not given back yet, given back.
  unfoldable pub release : Account → ℕ → Outcome
  unfolding outstanding apply
  release a subject =
      if leb_ℤ (pos 0) (outstanding subject a.entries)
      then nothing_taken
      else apply a released (whole (outstanding subject a.entries)) (some subject)

  unfoldable pub adjust : Account → Amount → Outcome
  unfolding apply
  adjust a amount = apply a adjusted amount none

-- `cancel`, at `now`.
abbrev pub cancel : Account → ℕ → Account
cancel a now =
    if is_set a.voucher.cancelled_at
    then a
    else record a { voucher = record a.voucher { cancelled_at = some now } }

-- Which vouchers `expire` writes off.
abbrev pub is_due : Voucher → ℕ → Bool
is_due v now = has_passed v.expires_at now && ltb_ℤ (pos 0) v.balance && not (is_set v.cancelled_at)

module _ (doubles : Doubles) where
  -- One round of `expire`.
  unfoldable pub expire : Account → ℕ → Outcome
  unfolding apply
  expire a now =
      if is_due a.voucher now
      then apply doubles a expired (whole (number_ℤ doubles a.voucher.balance)) none
      else done a
