-- ===== src/Idempotency/Record/Identities.antt =====
-- Identities of requests, as the search of a key compares them.
use mortar.Prelude.{◌≡◌, true, false, inl, inr, List, find, arith, Bool-cases}
use mortar.Idempotency.Record.{IdempotencyRecord, Identity, is_for}

-- Identities that agree on a request agree on every record.
pub is_for_agree :
    (who w : Identity) (r : IdempotencyRecord)
    → is_for who r ≡ true
    → is_for w r ≡ true
    → (x : IdempotencyRecord) → is_for w x ≡ is_for who x
is_for_agree who w r h k x = grind arith

pub is_for_other :
    (who w : Identity) (r x : IdempotencyRecord)
    → is_for w r ≡ true
    → is_for w x ≡ true
    → is_for who x ≡ false
    → is_for who r ≡ false
is_for_other who w r x h k o = elim (Bool-cases (is_for who r)) [
  | inl t ↦ cc (is_for_agree who w r t h x, k, o)
  | inr f ↦ f
]

-- The search of a key is the same for all identities that agree.
pub find-is_for :
    (who w : Identity) (r : IdempotencyRecord) (rows : List IdempotencyRecord)
    → is_for who r ≡ true
    → is_for w r ≡ true
    → find (is_for w) rows ≡ find (is_for who) rows
find-is_for who w r rows h k = λ i. find (λ x. is_for_agree who w r h k x i) rows
