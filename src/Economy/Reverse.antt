-- ===== src/Economy/Reverse.antt =====
-- `reverse` of packages/game-economy/src/nestjs/game-economy.service.ts.
use mortar.Prelude.{ℕ, zero, suc, Bool, ◌&&◌, Option, none, some, [], ◌∷◌, find}
use mortar.Prelude.Int.{ℤ, pos, ◌-ℤ◌}
use mortar.Economy.Kinds.{DebitKind, EntryKind, kind_eq}
use mortar.Economy.Store.{lock, keyed, gives_back, some_eq, entry_view_of}
use mortar.Economy.Tables.{
  Entry, EntryView, LotRow, Tables, ledger_key_reused, Result, M, ◌>>=◌, ◌>>◌, pure, transaction,
  check, to_amount,
}
use mortar.Economy.Requests.{Env, RefundRequest, Words, check_refund}
use mortar.Economy.Service.{debit_new, find_bought, read_again}

pub record Reversal : Type 0 where
  pub entry : Option EntryView
  pub taken : ℕ
  pub spent : ℤ
  pub earlier : Option EntryView

abbrev pub is_reversal_of : ℕ → Entry → Bool
is_reversal_of id e = kind_eq e.kind (EntryKind.debit DebitKind.reversal) && some_eq e.refund_of id

-- The same key again answers as it did the first time.
unfoldable pub reverse_again : ℕ → ℕ → ℕ → Entry → M Reversal
reverse_again key id amount e = do
  seen ← entry_view_of e
  check (is_reversal_of id e) (ledger_key_reused key)
  pure (record {
    entry = some seen;
    taken = seen.amount;
    spent = pos amount -ℤ pos seen.amount;
    earlier = none;
  })

-- What is left of the purchase is taken back, if anything is.
unfoldable pub reverse_left : Env → ℕ → ℕ → LotRow → Words → ℕ → ℕ → M Reversal
reverse_left env holder amount lot words balance zero =
    pure (record { entry = none; taken = 0; spent = pos amount; earlier = none })
reverse_left env holder amount lot words balance (suc n) = do
  entry ←
      debit_new env holder DebitKind.reversal lot.currency (suc n) words balance (some lot.entry_id)
        (record { lot_id = lot.entry_id; amount = suc n } ∷ [])
  pure (record {
    entry = some entry;
    taken = suc n;
    spent = pos amount -ℤ pos (suc n);
    earlier = none;
  })

unfoldable pub reverse_new : Env → ℕ → ℕ → LotRow → Words → ℕ → M Reversal
reverse_new env holder amount lot words balance = do
  remaining ← to_amount lot.remaining
  reverse_left env holder amount lot words balance remaining

-- Past the key: a purchase given back before takes nothing more.
unfoldable pub reverse_unkeyed : Env → ℕ → RefundRequest → ℕ → ℕ → Option Entry → M Reversal
reverse_unkeyed env holder r amount balance (some e) = do
  given ← entry_view_of e
  pure (record { entry = none; taken = 0; spent = pos 0; earlier = some given })
reverse_unkeyed env holder r amount balance none = do
  lot ← read_again holder r
  reverse_new env holder amount lot r.words balance

unfoldable pub reverse_keyed : Env → ℕ → RefundRequest → LotRow → ℕ → ℕ → Option Entry → M Reversal
reverse_keyed env holder r found amount balance (some e) t =
    reverse_again r.words.idempotency_key found.entry_id amount e t
reverse_keyed env holder r found amount balance none t =
    reverse_unkeyed env holder r amount balance (find (gives_back found.entry_id) t.entries) t

unfoldable pub reverse_locked : Env → ℕ → RefundRequest → LotRow → M Reversal
reverse_locked env holder r found = do
  balance ← lock holder found.currency
  amount ← to_amount found.amount
  λ t. reverse_keyed env holder r found amount balance (keyed holder r.words.idempotency_key t) t

unfoldable pub reverse_steps : Env → ℕ → RefundRequest → M Reversal
reverse_steps env holder r = do
  check_refund env holder r
  found ← find_bought holder r
  reverse_locked env holder r found

unfoldable pub reverse : Env → ℕ → RefundRequest → Tables → Result Reversal × Tables
reverse env holder r = transaction (reverse_steps env holder r)
