-- ===== src/Economy/Service/Outcome.antt =====
-- What a spend answers: on a sound ledger it is refused exactly when it asks for more than the
-- balance, and otherwise it goes through, drawing in the game's order.
use mortar.Prelude.{
  true, ℕ, ◌+◌, ◌-◌, ◌≤◌, ◌<◌, ◌≡◌, refl, sym, ap, ◌∙◌, subst, inl, inr, ◌&&◌, none, some, List,
  find, arith, ltb, ◌==◌, if◌then◌else◌, All, sum_by, Bool-cases, Option-cases, filter, ◌⊎◌, ==_iff,
}
use mortar.Prelude.Number.{max_safe}
use mortar.Economy.Kinds.{is_spend_order, DebitKind, EntryKind}
use mortar.Economy.Allocate.{Draw, draws_for, is_open}
use mortar.Economy.Allocate.Amounts.{draws_for-sum, draws_for-none}
use mortar.Economy.Allocate.Order.{InOrder, draws_for-InOrder}
use mortar.Economy.Store.{lock, add_balance, opened_lots, are_safe, has_key, view}
use mortar.Economy.Tables.{EntryView, Tables, ok, err, insufficient_balance}
use mortar.Economy.Store.Monad.{bind-ok}
use mortar.Economy.Store.Draws.{take_all, drawn}
use mortar.Economy.Store.Rows.{held, held-add, held-put_self, held-put_ne, balance_at-add}
use mortar.Economy.Service.{
  draws_of, debit_new, spend_new, spend_from, spend_locked, spend_steps, spend,
}
use mortar.Economy.Requests.{
  Env, MovementRequest, Expected, entry_of, written, written_as, or_earlier, check_movement,
}
use mortar.Economy.Service.Effects.{debited, check_movement_effect}
use mortar.Economy.Service.Ledger.{IsSound, lock-IsSound}
use mortar.Economy.Service.Writes.{draws_for-Ready, opened_lots-Distinct}
use mortar.Economy.Service.Spending.{
  allocate_lem, debit_new_lem, lock-answers, locked, safe_positive_bounds, spend_new_short,
  spend_new-opened, sum-opened_lots, transaction-answers, transaction-refuses,
}

-- A request that passes its checks, under a key that is not used, on numbers that stay safe.
pub record Spendable (env : Env) (h : ℕ) (r : MovementRequest) (amt : ℕ) (t : Tables) : Type 0 where
  pub checked : check_movement env h r t ≡ ok (amt, t)
  pub fits : held h r.currency t.balances ≤ max_safe
  pub seq : t.next_seq ≤ max_safe
  pub ordered : is_spend_order env.order ≡ true
  pub lots_fit : are_safe h r.currency t.lots ≡ true
  pub unused : find (has_key h r.words.idempotency_key) t.entries ≡ none

module _ (env : Env) (h amt : ℕ) (r : MovementRequest) (t : Tables) (s : IsSound env.uuid t)
    (ready : Spendable env h r amt t) where
  -- Up to the writing, a spend has only made sure of its balance row.
  spend_steps-new :
      spend_steps env h r t
      ≡ spend_new env h r.currency amt r.words
          (held h r.currency t.balances)
          (locked h r.currency t)
  unfolding spend_steps spend_locked written written_as
  spend_steps-new =
      let u = locked h r.currency t in
      let cached = held h r.currency t.balances in
      let x : Expected = record {
        kind = EntryKind.debit DebitKind.spend;
        currency = r.currency;
        amount = amt;
        refund_of = none;
      } in
      bind-ok (check_movement env h r) (λ n. spend_locked env h r.currency n r.words) t
        ready.checked
      ∙ bind-ok (lock h r.currency) _ t (lock-answers h r.currency t ready.fits)
      ∙ bind-ok (written h r.words.idempotency_key x)
          (λ o. or_earlier o (spend_new env h r.currency amt r.words cached)) u
          (ap (λ o. written_as r.words.idempotency_key x o u) ready.unused)

  bounds : (0 < amt) × (amt ≤ max_safe)
  bounds = safe_positive_bounds r.amount amt (check_movement_effect env h r t t amt ready.checked).1

  same_held : held h r.currency (locked h r.currency t).balances ≡ held h r.currency t.balances
  same_held = held-add h r.currency h r.currency t.balances

  spend_short :
      held h r.currency t.balances < amt
      → spend env h r t ≡ (err (insufficient_balance (held h r.currency t.balances) amt), t)
  unfolding spend
  spend_short short = transaction-refuses (spend_steps env h r) t _ (
      spend_steps-new
      ∙ subst
          (λ n.
            spend_new env h r.currency amt r.words n (locked h r.currency t)
            ≡ err (insufficient_balance n amt))
          same_held
          (spend_new_short env h r.currency amt r.words (locked h r.currency t)
            (lock-IsSound h r.currency t s) bounds.0 bounds.1 ready.lots_fit
            (omega (arith, same_held))))

-- What a spend has done: it drew `amt` in all, in the game's order, and moved this balance alone.
pub record Spent (env : Env) (h c amt : ℕ) (t t' : Tables) : Type 0 where
  pub draws : List Draw
  pub total : sum_by drawn draws ≡ amt
  pub in_order :
      let opened = filter is_open (opened_lots h c t.lots) in
      All (λ a. All (InOrder env.order draws a) opened) opened
  pub lots : t'.lots ≡ take_all draws t.lots
  pub balance : held h c t'.balances + amt ≡ held h c t.balances
  pub others :
      (h' c' : ℕ)
      → held h' c' t'.balances
        ≡ (if h == h' && c == c' then held h c t'.balances else held h' c' t.balances)

module _ (env : Env) (h amt : ℕ) (r : MovementRequest) (t : Tables) (s : IsSound env.uuid t)
    (ready : Spendable env h r amt t) where
  spend_new_goes :
      (ds : List Draw)
      → amt ≤ held h r.currency t.balances
      → draws_for (opened_lots h r.currency t.lots) amt env.order ≡ some ds
      → (v : EntryView) × (t' : Tables) × (spend_new env h r.currency amt r.words
            (held h r.currency t.balances)
            (locked h r.currency t)
          ≡ ok (v, t'))
        × (t'
            ≡ debited env h r.currency amt r.words DebitKind.spend
                (held h r.currency t.balances - amt)
                none
                ds
                (locked h r.currency t))
  unfolding draws_of spend_from
  spend_new_goes ds enough e =
      let c = r.currency in
      let u = locked h c t in
      let n = held h c t.balances in
      let (low, high) = bounds env h amt r t s ready in
      let wrote =
        debit_new_lem env h c amt r.words u (lock-IsSound h c t s) low high ds
          (draws_for-Ready h c amt env.order t.lots ds s.lots_distinct e)
          (omega (arith, same_held env h amt r t s ready))
          (rw (same_held env h amt r t s ready) ready.fits) ready.seq ready.unused in
      (
        _,
        _,
        spend_new-opened env h c amt r.words u (lock-IsSound h c t s) low high n ready.lots_fit
            ∙ ground (arith, allocate_lem env h c amt r.words u (lock-IsSound h c t s) low high, e)
            ∙ subst
                (λ m.
                  debit_new env h DebitKind.spend c amt r.words m none ds u
                  ≡ ok (
                    view (
                        entry_of env h (EntryKind.debit DebitKind.spend) c amt r.words (m - amt)
                          none t.next_seq),
                    debited env h c amt r.words DebitKind.spend (m - amt) none ds u,
                  ))
                (same_held env h amt r t s ready) wrote,
        refl,
      )

  debited-Spent :
      (ds : List Draw) (t' : Tables)
      → amt ≤ held h r.currency t.balances
      → draws_for (opened_lots h r.currency t.lots) amt env.order ≡ some ds
      → t'
        ≡ debited env h r.currency amt r.words DebitKind.spend
            (held h r.currency t.balances - amt)
            none
            ds
            (locked h r.currency t)
      → Spent env h r.currency amt t t'
  debited-Spent ds t' enough e same =
      let c = r.currency in
      let n = held h c t.balances - amt in
      let rows = add_balance h c t.balances in
      rw same (record {
        draws = ds;
        total = draws_for-sum (opened_lots h c t.lots) amt env.order ds e;
        in_order =
            draws_for-InOrder (opened_lots h c t.lots) amt env.order ds
              (opened_lots-Distinct h c t.lots s.lots_distinct) ready.ordered e;
        lots = refl;
        balance =
            omega (
              arith,
              held-put_self h c n (held h c t.balances) rows (balance_at-add h c t.balances),
            );
        others = λ h' c'. elim (Bool-cases (h == h' && c == c')) [
          | inl mine ↦
              let same_h : h ≡ h' = (==_iff h h').0 (ground arith) in
              let same_c : c ≡ c' = (==_iff c c').0 (ground arith) in
              rw mine (rw (sym same_h) (rw (sym same_c) refl))
          | inr apart ↦
              rw apart (held-put_ne h c n h' c' rows apart ∙ held-add h c h' c' t.balances)
        ];
      })

  spend_enough :
      amt ≤ held h r.currency t.balances
      → (v : EntryView) × (t' : Tables) × (spend env h r t ≡ (ok v, t'))
        × Spent env h r.currency amt t t'
  unfolding spend
  spend_enough enough =
      elim (Option-cases (draws_for (opened_lots h r.currency t.lots) amt env.order)) [
        | inl e ↦ absurd (
            omega (
              arith,
              (draws_for-none (opened_lots h r.currency t.lots) amt env.order).0 e,
              sum-opened_lots h r.currency t.lots,
              (s.agrees h r.currency).cached,
            ))
        | inr (ds, e) ↦
            let (v, t', wrote, same) = spend_new_goes ds enough e in
            (
              v,
              t',
              transaction-answers (spend_steps env h r) t t' v
                  (spend_steps-new env h amt r t s ready ∙ wrote),
              debited-Spent ds t' enough e same,
            )
      ]

  -- On a sound ledger, with an order that names every kind once, a spend that passes its checks
  -- under an unused key, on a balance, a next number of entry and columns of the open lots that
  -- are all safe numbers, ends in one of two ways: it asks for more than the balance, and is
  -- refused and changes nothing; or it is answered, draws in all what was asked and in the game's
  -- order, lowers this balance by it, and leaves every other balance as it was.
  pub spend_outcome :
      ((held h r.currency t.balances < amt)
        × (spend env h r t ≡ (err (insufficient_balance (held h r.currency t.balances) amt), t)))
      ⊎ ((amt ≤ held h r.currency t.balances)
          × ((v : EntryView) × (t' : Tables) × (spend env h r t ≡ (ok v, t'))
              × Spent env h r.currency amt t t'))
  spend_outcome = elim (Bool-cases (ltb (held h r.currency t.balances) amt)) [
    | inl short ↦ inl (ground arith, spend_short env h amt r t s ready (ground arith))
    | inr enough ↦ inr (ground arith, spend_enough (ground arith))
  ]
