-- ===== src/Economy/Service/Writes.antt =====
-- Each write keeps the ledger sound.
use mortar.Prelude.{
  ℕ, ◌-◌, ◌<◌, ◌≡◌, ◌≢◌, refl, sym, subst, inl, inr, some, List, [], ◌∷◌, arith, ◌==◌, All, All-zip,
  Distinct, Bool-cases, filter, min, All-filter,
}
use mortar.Prelude.Sort.{sort_by, All-sort_by, Distinct-sort_by}
use mortar.Economy.Kinds.{CreditKind}
use mortar.Economy.Allocate.{Lot, Draw, after, is_open, ranked, take_from, draws_for}
use mortar.Economy.Allocate.Order.{Distinct-open}
use mortar.Economy.Allocate.Waits.{lot_id, take_from-stop, take_from-more}
use mortar.Economy.Store.{find_lot, owned_open, opened_lots}
use mortar.Economy.Tables.{LotRow}
use mortar.Economy.Store.Draws.{Ready, Covered, lot_of_draw}
use mortar.Economy.Store.Rows.{entry_id}

-- Each row is the one that its id finds.
All-found :
    (lots : List LotRow)
    → Distinct entry_id lots
    → All (λ l. find_lot l.entry_id lots ≡ some l) lots
All-found [] d = tt
All-found (l ∷ lots) (f, d) = (
  ground arith,
  All-zip (λ m. m.entry_id ≢ l.entry_id) (λ m. find_lot m.entry_id lots ≡ some m)
      (λ m. find_lot m.entry_id (l ∷ lots) ≡ some m) lots (λ m p q. ground arith) f
      (All-found lots d),
)

-- A lot that an allocation is offered is a row of this holder and currency with something left.
record Backed (h c : ℕ) (rows : List LotRow) (lot : Lot) : Type 0 where
  row : LotRow
  found : find_lot lot.id rows ≡ some row
  holder : row.holder ≡ h
  currency : row.currency ≡ c
  same : row.remaining ≡ lot.remaining
  opened : 0 < lot.remaining

module _ (h c : ℕ) where
  opened_lots-Backed :
      (rows lots : List LotRow)
      → All (λ l. find_lot l.entry_id rows ≡ some l) lots
      → All (Backed h c rows) (opened_lots h c lots)
  unfolding opened_lots
  opened_lots-Backed rows [] f = tt
  opened_lots-Backed rows (l ∷ lots) (f, fs) = elim (Bool-cases (owned_open h c l)) [
    | inl e ↦ rw e (
      record {
        row = l;
        found = f;
        holder = ground arith;
        currency = ground arith;
        same = refl;
        opened = ground arith;
      },
      opened_lots-Backed rows lots fs,
    )
    | inr e ↦ rw e (opened_lots-Backed rows lots fs)
  ]

  opened_lots-ne :
      (x : ℕ) (lots : List LotRow)
      → All (λ l. l.entry_id ≢ x) lots
      → All (λ l. l.id ≢ x) (opened_lots h c lots)
  unfolding opened_lots
  opened_lots-ne x [] f = tt
  opened_lots-ne x (l ∷ lots) (f, fs) = elim (Bool-cases (owned_open h c l)) [
    | inl e ↦ rw e (f, opened_lots-ne x lots fs)
    | inr e ↦ rw e (opened_lots-ne x lots fs)
  ]

  pub opened_lots-Distinct :
      (lots : List LotRow) → Distinct entry_id lots → Distinct lot_id (opened_lots h c lots)
  unfolding opened_lots
  opened_lots-Distinct [] d = tt
  opened_lots-Distinct (l ∷ lots) (f, d) = elim (Bool-cases (owned_open h c l)) [
    | inl e ↦
        rw e (unfold opened_lots in opened_lots-ne l.entry_id lots f, opened_lots-Distinct lots d)
    | inr e ↦ rw e (opened_lots-Distinct lots d)
  ]

  take_from-Covered :
      (rows : List LotRow) (lots : List Lot) (left : ℕ)
      → All (Backed h c rows) lots
      → All (Covered h c rows) (take_from lots left).0
  take_from-Covered rows [] left b = unfold take_from in tt
  take_from-Covered rows (l ∷ lots) left (b, bs) = elim (Bool-cases (left == 0)) [
    | inl e ↦ subst (All (Covered h c rows)) (sym (take_from-stop l lots left e)) tt
    | inr e ↦ subst (All (Covered h c rows)) (sym (take_from-more l lots left e)) (
      record {
        lot = b.row;
        found = b.found;
        holder = b.holder;
        currency = b.currency;
        enough = omega (arith, b.same);
        some_drawn = ground (arith, b.opened);
      },
      take_from-Covered rows lots (left - min l.remaining left) bs,
    )
  ]

take_from-ne :
    (x : ℕ) (lots : List Lot) (left : ℕ)
    → All (λ l. l.id ≢ x) lots
    → All (λ d. d.lot_id ≢ x) (take_from lots left).0
take_from-ne x [] left f = unfold take_from in tt
take_from-ne x (l ∷ lots) left (f, fs) = elim (Bool-cases (left == 0)) [
  | inl e ↦ subst (All (λ d. d.lot_id ≢ x)) (sym (take_from-stop l lots left e)) tt
  | inr e ↦
      subst (All (λ d. d.lot_id ≢ x)) (sym (take_from-more l lots left e))
        (f, take_from-ne x lots (left - min l.remaining left) fs)
]

take_from-Distinct :
    (lots : List Lot) (left : ℕ)
    → Distinct lot_id lots
    → Distinct lot_of_draw (take_from lots left).0
take_from-Distinct [] left d = unfold take_from in tt
take_from-Distinct (l ∷ lots) left (f, d) = elim (Bool-cases (left == 0)) [
  | inl e ↦ subst (Distinct lot_of_draw) (sym (take_from-stop l lots left e)) tt
  | inr e ↦ subst (Distinct lot_of_draw) (sym (take_from-more l lots left e)) (
    take_from-ne l.id lots (left - min l.remaining left) f,
    take_from-Distinct lots (left - min l.remaining left) d,
  )
]

-- What an allocation over a holder's open lots draws is ready to be drawn.
pub draws_for-Ready :
    (h c amount : ℕ) (order : List CreditKind) (rows : List LotRow) (ds : List Draw)
    → Distinct entry_id rows
    → draws_for (opened_lots h c rows) amount order ≡ some ds
    → Ready h c rows ds
unfolding draws_for ranked
draws_for-Ready h c amount order rows ds d e =
    let lots = opened_lots h c rows in
    let opened = filter is_open lots in
    let sorted = sort_by (after order) opened in
    let same : (take_from sorted amount).0 ≡ ds = ground arith in
    subst (Ready h c rows) same (
      take_from-Distinct sorted amount (
          Distinct-sort_by (after order) lot_id opened
            (Distinct-open lots (opened_lots-Distinct h c rows d))),
      take_from-Covered h c rows sorted amount (
          All-sort_by (after order) (Backed h c rows) opened (
            All-filter (Backed h c rows) is_open lots
              (opened_lots-Backed h c rows rows (All-found rows d)))),
    )
