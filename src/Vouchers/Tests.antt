-- ===== src/Vouchers/Tests.antt =====
-- Vouchers to try the theorems of packages/vouchers on.
use mortar.Prelude.{ℕ, ◌≡◌, refl, Option, none, some, [], ◌∷◌, arith}
use mortar.Prelude.Int.{pos, ◌+ℤ◌, ◌≤ℤ◌}
use mortar.Prelude.Number.{Doubles}
use mortar.Vouchers.Ledger.{
  Denomination, EntryKind, Amount, LedgerEntry, Voucher, Account, done, balance_of, balance_from,
  can_redeem, round, redeem, adjust, apply, written,
}
use mortar.Vouchers.Ledger.Spent.{IsKept, total, redeem-balance, adjust-balance}

-- Arithmetic that does not round.
abbrev unrounded : Doubles
unrounded = record {
  plus = λ a b. a +ℤ b;
  number = λ n. n;
  string = λ n. n;
  plus_exact = λ a b h. refl;
  number_exact = λ n h. refl;
  string_exact = λ n h. refl;
}

abbrev entry : EntryKind → ℕ → Option ℕ → LedgerEntry
entry kind n subject = record { kind = kind; amount = n; subject = subject }

abbrev with_balance : ℕ → Voucher
with_balance n = record {
  denomination = Denomination.money;
  issued_amount = 200;
  balance = pos n;
  expires_at = none;
  cancelled_at = none;
  service_id = none;
}

-- 200 issued, 50 of it redeemed for booking 7.
abbrev used : Account
used = record {
  voucher = with_balance 150;
  entries = entry EntryKind.redeemed 50 (some 7) ∷ entry EntryKind.issued 200 none ∷ [];
}

used-IsKept : IsKept used
unfolding ◌+ℤ◌
used-IsKept = record { cached = refl; issued = omega arith }

redeem-balance_example :
    (a' : Account) × (redeem unrounded used (Amount.whole (pos 30)) 8 none 0 ≡ done a')
    × (a'.voucher.balance +ℤ pos 30 ≡ pos 150)
    × (pos 0 ≤ℤ a'.voucher.balance)
    × (a'.voucher.balance ≡ total a'.entries)
unfolding can_redeem round
redeem-balance_example =
    redeem-balance unrounded used (Amount.whole (pos 30)) 8 none 0 30 used-IsKept (omega arith) refl
      refl (omega arith)

abbrev raised : Account
raised = record {
  voucher = with_balance 160;
  entries = entry EntryKind.adjusted 10 none ∷ used.entries;
}

adjust-balance_example : pos 160 ≡ pos 150 +ℤ pos 10
unfolding adjust apply written round balance_of balance_from ◌+ℤ◌
adjust-balance_example = adjust-balance unrounded used raised 9 used-IsKept (omega arith) refl
