-- ===== src/Economy/Requests.antt =====
-- What the operations of packages/game-economy/src/nestjs/game-economy.service.ts share: requests
-- (movement-request.types.ts) and their checks, the entry of a key, and the insertion of an entry.
use mortar.Prelude.{ℕ, ⊤, Bool, true, false, ◌&&◌, Option, none, some, List, [], ◌∷◌, ◌==◌}
use mathlib.Core.Option
use mortar.Prelude.Int.{ℤ, pos, negsuc}
use mortar.Prelude.Number.{Number, safe_positive}
use mortar.Economy.Kinds.{CreditKind, EntryKind, kind_eq}
use mortar.Economy.Check.{Text, Field, Asked, check_request, is_uuid}
use mortar.Economy.Store.{keyed, insert_row, entry_view_of}
use mortar.Economy.Tables.{
  Entry, EntryView, validation, not_found, ledger_key_reused, constraint, ok, M, ◌>>=◌, ◌>>◌, pure,
  throw, require, check,
}

-- What surrounds the service: the texts that identifiers stand for, the ids that the database
-- generates, its clock, and the game's spend order.
pub record Env : Type 0 where
  pub text_of : ℕ → Text
  pub uuid : ℕ → ℕ
  pub now : ℕ
  pub order : List CreditKind

-- What a credit, a spend and a refund all carry.
pub record Words : Type 0 where
  pub reason : ℕ
  pub reference : Option ℕ
  pub idempotency_key : ℕ
  pub metadata : Option ℕ
  pub occurred_at : Option ℕ

pub record MovementRequest : Type 0 where
  pub currency : ℕ
  pub amount : Number
  pub words : Words

pub record RefundRequest : Type 0 where
  pub purchase_id : ℕ
  pub words : Words

-- `Expected`
pub record Expected : Type 0 where
  pub kind : EntryKind
  pub currency : ℕ
  pub amount : ℕ
  pub refund_of : Option ℕ

abbrev pub same_option : Option ℕ → Option ℕ → Bool
same_option none none = true
same_option none (some b) = false
same_option (some a) none = false
same_option (some a) (some b) = a == b

abbrev pub matches : Entry → Expected → Bool
matches e x =
    kind_eq e.kind x.kind
    && e.currency == x.currency
    && e.amount == x.amount
    && same_option e.refund_of x.refund_of

-- `written`: the entry of this key, none, or a refusal when it was written for another.
unfoldable pub written_as : ℕ → Expected → Option Entry → M (Option EntryView)
unfolding entry_view_of
written_as key x none t = ok (none, t)
written_as key x (some e) t =
    (do seen ← entry_view_of e; check (matches e x) (ledger_key_reused key); pure (some seen)) t

unfoldable pub written : ℕ → ℕ → Expected → M (Option EntryView)
unfolding written_as
written holder key x t = written_as key x (keyed holder key t) t

abbrev pub or_now : ℕ → Option ℕ → ℕ
or_now now none = now
or_now now (some at) = at

abbrev pub non_negative : ℤ → Option ℕ
non_negative (pos n) = some n
non_negative (negsuc n) = none

abbrev pub entry_of : Env → ℕ → EntryKind → ℕ → ℕ → Words → ℕ → Option ℕ → ℕ → Entry
entry_of env holder kind currency amount words after refund_of seq = record {
  id = env.uuid seq;
  seq = seq;
  holder = holder;
  currency = currency;
  kind = kind;
  amount = amount;
  balance_after = after;
  reason = words.reason;
  reference = words.reference;
  idempotency_key = words.idempotency_key;
  refund_of = refund_of;
  metadata = words.metadata;
  occurred_at = or_now env.now words.occurred_at;
}

-- `insert`: the balance that it leaves is checked by the table to be zero or more.
unfoldable pub insert : Env → ℕ → EntryKind → ℕ → ℕ → Words → ℤ → Option ℕ → M EntryView
unfolding insert_row entry_view_of
insert env holder kind currency amount words after refund_of t =
    (do
      n ← require (non_negative after) constraint
      insert_row (entry_of env holder kind currency amount words n refund_of t.next_seq)
      entry_view_of (entry_of env holder kind currency amount words n refund_of t.next_seq))
      t

-- A refusal names every problem at once.
abbrev pub passed : {A : Type 0} → List Field → M A → M A
passed [] m = m
passed (f ∷ fs) m = throw (validation (f ∷ fs))

abbrev pub asked : Env → ℕ → Option ℕ → Option Number → Words → Asked
asked env holder currency amount words = record {
  holder_id = env.text_of holder;
  currency = Option.map env.text_of currency;
  amount = amount;
  reason = env.text_of words.reason;
  reference = Option.map env.text_of words.reference;
  idempotency_key = env.text_of words.idempotency_key;
}

-- `checkRequest`, and the amount as a natural number once it has passed.
unfoldable pub check_movement : Env → ℕ → MovementRequest → M ℕ
unfolding check_request
check_movement env holder r =
    passed (check_request (asked env holder (some r.currency) (some r.amount) r.words))
      (require (safe_positive r.amount) (validation []))

unfoldable pub check_refund : Env → ℕ → RefundRequest → M ⊤
unfolding check_request is_uuid
check_refund env holder r =
    passed (check_request (asked env holder none none r.words))
      (check (is_uuid (env.text_of r.purchase_id)) (not_found r.purchase_id))

abbrev pub or_earlier : Option EntryView → M EntryView → M EntryView
or_earlier none rest = rest
or_earlier (some e) rest = pure e
