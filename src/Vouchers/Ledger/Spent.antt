-- ===== src/Vouchers/Ledger/Spent.antt =====
-- What a redemption and an adjustment leave in a voucher.
use mortar.Prelude.{
  ℕ, suc, ◌+◌, ◌≤◌, ◌<◌, ◌≡◌, refl, sym, ap, ◌∙◌, inl, inr, Option, none, some, List, [], ◌∷◌,
  arith, if◌then◌else◌, Bool-cases, sum_by,
}
use mortar.Prelude.Int.{
  ℤ, pos, negsuc, minus, ◌+ℤ◌, ◌≤ℤ◌, int_laws, minus_parts, add_up, add_down, pos_part, neg_part,
  eq_of_parts,
}
use mortar.Prelude.Number.{Doubles, IsSafe, max_safe}
use mortar.Vouchers.Ledger.{
  EntryKind, redeemed, adjusted, Part, Amount, whole, between, not_finite, LedgerEntry, signed,
  balance_from, balance_of, Voucher, can_redeem, abs_of, round, Account, done, number_ℤ, string_ℤ,
  seen, written, apply, redeem, adjust, is_positive, unless_refused,
}

-- What entries come to in whole numbers.
abbrev added : LedgerEntry → ℤ
added e = if is_positive e.kind then pos e.amount else minus e.amount

abbrev pub total : List LedgerEntry → ℤ
total [] = pos 0
total (e ∷ es) = total es +ℤ added e

-- The sum of their amounts.
abbrev pub volume : List LedgerEntry → ℕ
volume es = sum_by (λ e. e.amount) es

-- An equation of integers, as its two parts.
parts : {x y : ℤ} → x ≡ y → (pos_part x ≡ pos_part y) × (neg_part x ≡ neg_part y)
parts h = (ap pos_part h, ap neg_part h)

abbrev entry : EntryKind → ℕ → Option ℕ → LedgerEntry
entry kind n subject = record { kind = kind; amount = n; subject = subject }

add_added :
    (z : ℤ) (e : LedgerEntry)
    → (pos_part (z +ℤ added e) ≤ pos_part z + e.amount)
      × (neg_part (z +ℤ added e) ≤ neg_part z + e.amount)
add_added z e = elim (Bool-cases (is_positive e.kind)) [
  | inl up ↦ let bounds = add_up z e.amount in rw up (omega (arith, bounds), omega (arith, bounds))
  | inr down ↦
      let bounds = add_down z e.amount in rw down (omega (arith, bounds), omega (arith, bounds))
]

total-volume :
    (es : List LedgerEntry) → (pos_part (total es) ≤ volume es) × (neg_part (total es) ≤ volume es)
total-volume [] = (omega arith, omega arith)
total-volume (e ∷ es) =
    let bounds = add_added (total es) e in
    let rest = total-volume es in (omega (arith, bounds, rest), omega (arith, bounds, rest))

-- The cached balance is what the entries come to, and is no more than was issued.
pub record IsKept (a : Account) : Type 0 where
  pub cached : a.voucher.balance ≡ total a.entries
  pub issued : a.voucher.balance ≤ℤ pos a.voucher.issued_amount

rounded-le :
    (v : Voucher) (amount : Amount) (service : Option ℕ) (now n : ℕ)
    → can_redeem v amount service now ≡ none
    → round (abs_of amount) ≡ some (pos n)
    → pos n ≤ℤ v.balance
unfolding can_redeem round ◌+ℤ◌
rounded-le v not_finite service now n h e = cc
rounded-le v (whole (pos m)) service now n h e = ground arith
rounded-le v (whole (negsuc m)) service now n h e = ground arith
rounded-le v (between (pos m) Part.below_half) service now n h e = ground arith
rounded-le v (between (pos m) Part.half) service now n h e = ground arith
rounded-le v (between (pos m) Part.above_half) service now n h e = ground arith
rounded-le v (between (negsuc m) p) service now n h e = ground arith

module _ (doubles : Doubles) where
  signed-added : (e : LedgerEntry) → e.amount ≤ max_safe → signed doubles e ≡ added e
  signed-added e h = rw (doubles.number_exact e.amount h) refl

  -- Doubles add exactly while the amounts come to a safe number.
  balance_from-total :
      (z : ℤ) (es : List LedgerEntry)
      → pos_part z + volume es ≤ max_safe
      → neg_part z + volume es ≤ max_safe
      → balance_from doubles z es ≡ z +ℤ total es
  unfolding balance_from
  balance_from-total z [] up down = omega int_laws
  balance_from-total z (e ∷ es) up down =
      let bounds = add_added z e in
      let moved_so : doubles.plus z (signed doubles e) ≡ z +ℤ added e =
        ap (doubles.plus z) (signed-added e (omega arith))
        ∙ doubles.plus_exact z (added e) (omega (arith, bounds), omega (arith, bounds)) in
      let swapped : (z +ℤ added e) +ℤ total es ≡ z +ℤ (total es +ℤ added e) = omega int_laws in
      ap (λ s. balance_from doubles s es) moved_so
      ∙ balance_from-total (z +ℤ added e) es (omega (arith, bounds)) (omega (arith, bounds))
      ∙ swapped

  number_ℤ-safe : (z : ℤ) → IsSafe z → number_ℤ doubles z ≡ z
  number_ℤ-safe (pos n) (h, g) = rw (doubles.number_exact n h) refl
  number_ℤ-safe (negsuc n) (h, g) = rw (doubles.number_exact (suc n) g) (ground arith)

  string_ℤ-safe : (z : ℤ) → IsSafe z → string_ℤ doubles z ≡ z
  string_ℤ-safe (pos n) (h, g) = rw (doubles.string_exact n h) refl
  string_ℤ-safe (negsuc n) (h, g) = rw (doubles.string_exact (suc n) g) (ground arith)

  -- The balance that `apply` sets.
  balance-total :
      (es : List LedgerEntry)
      → volume es ≤ max_safe
      → string_ℤ doubles (balance_of doubles es) ≡ total es
  unfolding balance_of
  balance-total es h =
      let bounds = total-volume es in
      let from_zero : pos 0 +ℤ total es ≡ total es = omega int_laws in
      ap (string_ℤ doubles)
        (balance_from-total (pos 0) es (omega (arith, h)) (omega (arith, h)) ∙ from_zero)
      ∙ string_ℤ-safe (total es) (omega (arith, bounds), omega (arith, bounds))

  module _ (a : Account) (kind : EntryKind) (n : ℕ) (subject : Option ℕ)
      (safe : volume a.entries + n ≤ max_safe) where
    written-fits :
        0 < n
        → pos 0 ≤ℤ total (entry kind n subject ∷ a.entries)
        → total (entry kind n subject ∷ a.entries) ≤ℤ pos a.voucher.issued_amount
        → written doubles a kind (some (pos n)) subject
          ≡ done (record {
            voucher = record a.voucher { balance = total (entry kind n subject ∷ a.entries) };
            entries = entry kind n subject ∷ a.entries;
          })
    unfolding written
    written-fits above low high =
        let balance = balance-total (entry kind n subject ∷ a.entries) (omega arith) in
        rw (doubles.string_exact n (omega arith), balance) (ground arith)

    written_effect :
        (a' : Account)
        → written doubles a kind (some (pos n)) subject ≡ done a'
        → a'.voucher.balance ≡ total (entry kind n subject ∷ a.entries)
    unfolding written
    written_effect a' h =
        let balance = balance-total (entry kind n subject ∷ a.entries) (omega arith) in
        let same = doubles.string_exact n (omega arith) in ground (arith, rw (same, balance) at h)

  -- When doubles and their texts are exact on safe numbers, the cached balance is what the entries
  -- come to and no more than was issued, and the amounts of the entries and of this redemption
  -- together come to a safe number, a redemption that may be made, of an amount that rounds to a
  -- number above 0, is answered: it lowers the balance by the rounded amount, leaves it at 0 or
  -- more, and leaves it equal to what the entries come to.
  pub redeem-balance :
      (a : Account) (amount : Amount) (subject : ℕ) (service : Option ℕ) (now n : ℕ)
      → IsKept a
      → volume a.entries + n ≤ max_safe
      → can_redeem (seen doubles a.voucher) amount service now ≡ none
      → round (abs_of amount) ≡ some (pos n)
      → 0 < n
      → (a' : Account) × (redeem doubles a amount subject service now ≡ done a')
        × (a'.voucher.balance +ℤ pos n ≡ a.voucher.balance)
        × (pos 0 ≤ℤ a'.voucher.balance)
        × (a'.voucher.balance ≡ total a'.entries)
  unfolding redeem apply
  redeem-balance a amount subject service now n kept safe may_ rounded above =
      let bounds = total-volume a.entries in
      let cached = parts kept.cached in
      let number =
        number_ℤ-safe a.voucher.balance
          (omega (arith, bounds, cached), omega (arith, bounds, cached)) in
      let le = rounded-le (seen doubles a.voucher) amount service now n may_ rounded in
      let le_so : pos n ≤ℤ a.voucher.balance = omega (arith, le, parts number) in
      let less = minus_parts n in
      let low : pos 0 ≤ℤ total a.entries +ℤ minus n = omega (int_laws, cached, le_so, less) in
      let high : total a.entries +ℤ minus n ≤ℤ pos a.voucher.issued_amount =
        omega (int_laws, cached, kept.issued, less) in
      (
        _,
        ap
              (λ o.
                unless_refused o
                  (written doubles a redeemed (round (abs_of amount)) (some subject)))
              may_
            ∙ ap (λ o. written doubles a redeemed o (some subject)) rounded
            ∙ written-fits a redeemed n (some subject) safe above low high,
        eq_of_parts _ _ (omega (int_laws, cached, less)),
        low,
        refl,
      )

  -- When doubles and their texts are exact on safe numbers, the cached balance is what the entries
  -- come to and no more than was issued, and the amounts of the entries and of this adjustment
  -- together come to a safe number, an adjustment by a whole number below 0 that is answered
  -- raises the balance, by as much as the number lies below 0.
  pub adjust-balance :
      (a a' : Account) (n : ℕ)
      → IsKept a
      → volume a.entries + suc n ≤ max_safe
      → adjust doubles a (whole (negsuc n)) ≡ done a'
      → a'.voucher.balance ≡ a.voucher.balance +ℤ pos (suc n)
  unfolding adjust apply round
  adjust-balance a a' n kept safe h =
      written_effect a adjusted (suc n) none safe a' h
      ∙ ap (λ z. z +ℤ pos (suc n)) (sym kept.cached)
