-- ===== src/Economy/Queries/Reconciled.antt =====
-- On a sound ledger the three accounts agree.
use mortar.Prelude.{
  ℕ, ◌+◌, ◌≤◌, ◌≡◌, refl, sym, ◌∙◌, ap, subst, inl, inr, true, Option, none, some, List, [], ◌∷◌,
  filter, sum_by, arith, All, Bool-cases,
}
use mortar.Prelude.Int.{
  ℤ, pos, minus, minus_parts, add_up, add_down, int_laws, pos_part, neg_part, eq_of_parts,
}
use mortar.Prelude.Number.{max_safe, Doubles}
use mortar.Economy.Kinds.{EntryKind, Movement, balance_of, balance_from, moved}
use mortar.Economy.Store.{balance_at}
use mortar.Economy.Tables.{Entry, LotRow, Tables, ok, to_amount, ◌>>=◌, pure}
use mortar.Economy.Store.Monad.{bind-ok}
use mortar.Economy.Store.Rows.{held, left_of, or_zero}
use mortar.Economy.Service.Ledger.{IsSound, credit_part, debit_part, credited_in}
use mortar.Economy.Queries.{
  balance, balance_in, movements, reconcile, belongs, lot_belongs, left_here, tally,
}

abbrev to_movement : Entry → Movement
to_movement e = record { kind = e.kind; amount = e.amount }

abbrev debited : EntryKind → ℕ → ℕ
debited k n = elim k [ EntryKind.credit _ ↦ 0 | EntryKind.debit _ ↦ n ]

abbrev credited : EntryKind → ℕ → ℕ
credited k n = elim k [ EntryKind.credit _ ↦ n | EntryKind.debit _ ↦ 0 ]

amount_safe :
    (k : EntryKind) (n : ℕ) → credited k n ≤ max_safe → debited k n ≤ max_safe → n ≤ max_safe
amount_safe (EntryKind.credit k) n up down = up
amount_safe (EntryKind.debit k) n up down = down

-- An amount is safe where what is credited and what is debited come to safe numbers.
SafeAmounts-filter :
    (h c : ℕ) (es : List Entry)
    → sum_by (credit_part h c) es ≤ max_safe
    → sum_by (debit_part h c) es ≤ max_safe
    → All (λ e. e.amount ≤ max_safe) (filter (belongs h c) es)
SafeAmounts-filter h c [] up down = tt
SafeAmounts-filter h c (e ∷ es) up down = elim (Bool-cases (belongs h c e)) [
  | inl mine ↦ rw mine (
    amount_safe e.kind e.amount (ground (arith, up)) (ground (arith, down)),
    SafeAmounts-filter h c es (ground (arith, up)) (ground (arith, down)),
  )
  | inr other ↦ rw other (SafeAmounts-filter h c es (ground (arith, up)) (ground (arith, down)))
]

abbrev to_movements : List Entry → List Movement
to_movements [] = []
to_movements (e ∷ es) = to_movement e ∷ to_movements es

to_amount-ok : (n : ℕ) (t : Tables) → n ≤ max_safe → to_amount n t ≡ ok (n, t)
to_amount-ok n t h = ground arith

movements_lem :
    (es : List Entry) (t : Tables)
    → All (λ e. e.amount ≤ max_safe) es
    → movements es t ≡ ok (to_movements es, t)
unfolding movements
movements_lem [] t h = refl
movements_lem (e ∷ es) t (h, hs) =
    let all_of =
      λ (n : ℕ). movements es >>= λ rest. pure (record { kind = e.kind; amount = n } ∷ rest) in
    let last = λ (rest : List Movement). pure (to_movement e ∷ rest) in
    bind-ok (to_amount e.amount) all_of t (to_amount-ok e.amount t h)
    ∙ bind-ok (movements es) last t (movements_lem es t hs)

-- `end` is `z` with `c` credited and `d` debited, in numbers.
abbrev Moves : ℤ → ℤ → ℕ → ℕ → Type 0
Moves z end d c = pos_part end + neg_part z + d ≡ neg_part end + pos_part z + c

-- One step, while neither side comes to more than a safe number.
moved_lem :
    (doubles : Doubles) (z : ℤ) (k : EntryKind) (n : ℕ)
    → pos_part z + credited k n ≤ max_safe
    → neg_part z + debited k n ≤ max_safe
    → let next = moved doubles z (record { kind = k; amount = n }) in
      Moves z next (debited k n) (credited k n)
      × (pos_part next ≤ pos_part z + credited k n)
      × (neg_part next ≤ neg_part z + debited k n)
moved_lem doubles z (EntryKind.credit k) n up down =
    let (more, less) = add_up z n in
    rw (doubles.plus_exact z (pos n) (omega arith, omega arith))
      (omega int_laws, omega arith, omega arith)
moved_lem doubles z (EntryKind.debit k) n up down =
    let (more, less) = add_down z n in
    rw (doubles.plus_exact z (minus n) (omega arith, omega arith))
      (omega (int_laws, minus_parts n), omega arith, omega arith)

balance_from_lem :
    (doubles : Doubles) (h c : ℕ) (z : ℤ) (es : List Entry)
    → pos_part z + sum_by (credit_part h c) es ≤ max_safe
    → neg_part z + sum_by (debit_part h c) es ≤ max_safe
    → Moves z
        (balance_from doubles z (to_movements (filter (belongs h c) es)))
        (sum_by (debit_part h c) es)
        (sum_by (credit_part h c) es)
unfolding balance_from
balance_from_lem doubles h c z [] up down = omega arith
balance_from_lem doubles h c z (e ∷ es) up down = elim (Bool-cases (belongs h c e)) [
  | inl mine ↦
      let (step, high, low) =
        moved_lem doubles z e.kind e.amount (ground (arith, up)) (ground (arith, down)) in
      let rest =
        balance_from_lem doubles h c (moved doubles z (to_movement e)) es (ground (arith, up, high))
          (ground (arith, down, low)) in
      rw mine (omega (arith, step, rest))
  | inr other ↦
      let rest = balance_from_lem doubles h c z es (ground (arith, up)) (ground (arith, down)) in
      rw other (omega (arith, rest))
]

-- The ledger of a sound holder comes to the cached balance.
pub ledger-eq-held :
    (doubles : Doubles) {uuid : ℕ → ℕ} (h c : ℕ) (t : Tables)
    → IsSound uuid t
    → credited_in h c t ≤ max_safe
    → balance_of doubles (to_movements (filter (belongs h c) t.entries)) ≡ pos (held h c t.balances)
unfolding balance_of
ledger-eq-held doubles h c t s le =
    let agreed = (s.agrees h c).ledger in
    eq_of_parts _ _ (
      omega (
        arith,
        balance_from_lem doubles h c (pos 0) t.entries (omega arith) (omega (arith, agreed)),
        agreed,
      ))

left_of-filter :
    (h c : ℕ) (ls : List LotRow) → sum_by left_here (filter (lot_belongs h c) ls) ≡ left_of h c ls
left_of-filter h c [] = refl
left_of-filter h c (l ∷ ls) = ground (arith, left_of-filter h c ls)

balance_lem :
    (h c : ℕ) (t : Tables)
    → held h c t.balances ≤ max_safe
    → balance h c t ≡ ok (held h c t.balances, t)
unfolding balance
balance_lem h c t le = go (balance_at h c t.balances) refl
  where
    go : (o : Option ℕ) → balance_at h c t.balances ≡ o → balance_in o t ≡ ok (or_zero o, t)
    go none e = refl
    go (some n) e = to_amount-ok n t (subst (λ (x : Option ℕ). or_zero x ≤ max_safe) e le)

tally_lem :
    (a : ℕ) (z : ℤ) (l : ℕ)
    → z ≡ pos a
    → l ≡ a
    → tally a z l ≡ record { balance = a; ledger = pos a; lots = a; agrees = true }
tally_lem a z l p q = ground arith

-- When doubles add exactly as long as the sum is a safe number, on a sound ledger where all that
-- was ever credited to a holder in a currency comes to a safe number, `reconcile` answers, its
-- three accounts are the cached balance, and it says that they agree.
pub reconcile_agrees :
    (doubles : Doubles) {uuid : ℕ → ℕ} (h c : ℕ) (t : Tables)
    → IsSound uuid t
    → credited_in h c t ≤ max_safe
    → reconcile doubles h c t
      ≡ ok (
        record {
          balance = held h c t.balances;
          ledger = pos (held h c t.balances);
          lots = held h c t.balances;
          agrees = true;
        },
        t,
      )
unfolding reconcile
reconcile_agrees doubles h c t s le =
    let cached = held h c t.balances in
    let agreed = (s.agrees h c).ledger in
    let mine = filter (belongs h c) t.entries in
    let lot_sum = sum_by left_here (filter (lot_belongs h c) t.lots) in
    let all_left : lot_sum ≡ cached = left_of-filter h c t.lots ∙ sym (s.agrees h c).cached in
    bind-ok (balance h c) _ t (balance_lem h c t (omega (arith, agreed)))
    ∙ bind-ok (movements mine) _ t
        (movements_lem mine t (SafeAmounts-filter h c t.entries le (omega (arith, agreed))))
    ∙ bind-ok (to_amount lot_sum) _ t (to_amount-ok lot_sum t (omega (arith, agreed)))
    ∙ ap (λ r. ok (r, t))
        (tally_lem cached (balance_of doubles (to_movements mine)) lot_sum
          (ledger-eq-held doubles h c t s le) all_left)
