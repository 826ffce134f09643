-- ===== src/Economy/Store/Draws.antt =====
-- The loop of `draw`: it goes through when every lot named holds what is drawn from it, and then
-- what it takes from a holder's lots is the sum of the draws.
use mortar.Prelude.{
  ℕ, ◌+◌, ◌≤◌, ◌<◌, ◌≡◌, ◌≢◌, refl, sym, ◌∙◌, false, ◌&&◌, Option, none, some, List, [], ◌∷◌, any,
  arith, ◌==◌, if◌then◌else◌, All, All-zip, Distinct, sum_by,
}
use mortar.Economy.Allocate.{Draw}
use mortar.Economy.Store.{find_lot, take_out, same_draw, draw_row, draw_one, draw}
use mortar.Economy.Tables.{LotRow, DrawRow, Tables, ok}
use mortar.Economy.Store.Monad.{bind-ok}
use mortar.Economy.Store.Rows.{
  left_of, entry_id, All-take_out_id, Distinct-take_out, All-take_out_le, find_lot-take_out_ne,
  holds_of_find, any_of_find, left_of-take_out,
}

abbrev pub drawn : Draw → ℕ
drawn d = d.amount

abbrev pub lot_of_draw : Draw → ℕ
lot_of_draw d = d.lot_id

abbrev pub take_all : List Draw → List LotRow → List LotRow
take_all [] lots = lots
take_all (d ∷ ds) lots = take_all ds (take_out d.lot_id d.amount lots)

abbrev pub draw_rows : ℕ → List Draw → List DrawRow → List DrawRow
draw_rows entry [] rows = rows
draw_rows entry (d ∷ ds) rows = draw_rows entry ds (draw_row entry d ∷ rows)

-- The lot of a draw is there, of this holder and currency, and holds enough.
pub record Covered (h c : ℕ) (lots : List LotRow) (d : Draw) : Type 0 where
  pub lot : LotRow
  pub found : find_lot d.lot_id lots ≡ some lot
  pub holder : lot.holder ≡ h
  pub currency : lot.currency ≡ c
  pub enough : d.amount ≤ lot.remaining
  pub some_drawn : 0 < d.amount

abbrev pub Ready : ℕ → ℕ → List LotRow → List Draw → Type 0
Ready h c lots ds = Distinct lot_of_draw ds × All (Covered h c lots) ds

abbrev pub Undrawn : ℕ → List DrawRow → List Draw → Type 0
Undrawn entry rows ds = All (λ d. any (same_draw entry d.lot_id) rows ≡ false) ds

module _ (h c : ℕ) where
  Covered-take_out :
      (d e : Draw) (lots : List LotRow)
      → e.lot_id ≢ d.lot_id
      → Covered h c lots e
      → Covered h c (take_out d.lot_id d.amount lots) e
  Covered-take_out d e lots ne v = record {
    lot = v.lot;
    found = find_lot-take_out_ne d.lot_id d.amount e.lot_id lots (λ p. ne (sym p)) ∙ v.found;
    holder = v.holder;
    currency = v.currency;
    enough = v.enough;
    some_drawn = v.some_drawn;
  }

  Ready-take_out :
      (d : Draw) (ds : List Draw) (lots : List LotRow)
      → Ready h c lots (d ∷ ds)
      → Ready h c (take_out d.lot_id d.amount lots) ds
  Ready-take_out d ds lots r = (
    r.0.1,
    All-zip (λ e. e.lot_id ≢ d.lot_id) (Covered h c lots)
        (Covered h c (take_out d.lot_id d.amount lots)) ds
        (λ e ne v. Covered-take_out d e lots ne v) r.0.0 r.1.1,
  )

  Undrawn-cons :
      (entry : ℕ) (d : Draw) (ds : List Draw) (rows : List DrawRow)
      → All (λ e. e.lot_id ≢ d.lot_id) ds
      → Undrawn entry rows ds
      → Undrawn entry (draw_row entry d ∷ rows) ds
  Undrawn-cons entry d ds rows ne u =
      All-zip (λ e. e.lot_id ≢ d.lot_id) (λ e. any (same_draw entry e.lot_id) rows ≡ false)
        (λ e. any (same_draw entry e.lot_id) (draw_row entry d ∷ rows) ≡ false) ds
        (λ e p q. ground arith) ne u

  draw_one_lem :
      (entry : ℕ) (d : Draw) (t : Tables)
      → Distinct entry_id t.lots
      → Covered h c t.lots d
      → any (same_draw entry d.lot_id) t.draws ≡ false
      → draw_one entry d t
        ≡ ok (
          tt,
          record t { draws = draw_row entry d ∷ t.draws; lots = take_out d.lot_id d.amount t.lots },
        )
  unfolding draw_one
  draw_one_lem entry d t dist v u = ground (
    arith,
    v.some_drawn,
    u,
    any_of_find d.lot_id d.amount v.lot t.lots v.found,
    holds_of_find d.lot_id d.amount v.lot t.lots dist v.found v.enough,
  )

  pub draw_lem :
      (entry : ℕ) (ds : List Draw) (t : Tables)
      → Distinct entry_id t.lots
      → Ready h c t.lots ds
      → Undrawn entry t.draws ds
      → draw entry ds t
        ≡ ok (tt, record t { draws = draw_rows entry ds t.draws; lots = take_all ds t.lots })
  unfolding draw
  draw_lem entry [] t dist r u = refl
  draw_lem entry (d ∷ ds) t dist r u =
      bind-ok (draw_one entry d) (λ _. draw entry ds) t (draw_one_lem entry d t dist r.1.0 u.0)
      ∙ draw_lem entry ds
          (record t {
            draws = draw_row entry d ∷ t.draws;
            lots = take_out d.lot_id d.amount t.lots;
          })
          (Distinct-take_out d.lot_id d.amount t.lots dist) (Ready-take_out d ds t.lots r)
          (Undrawn-cons entry d ds t.draws r.0.0 u.1)

  pub left_of-take_all :
      (h' c' : ℕ) (ds : List Draw) (lots : List LotRow)
      → Distinct entry_id lots
      → Ready h c lots ds
      → left_of h' c' (take_all ds lots) + (if h == h' && c == c' then sum_by drawn ds else 0)
        ≡ left_of h' c' lots
  left_of-take_all h' c' [] lots dist r = ground arith
  left_of-take_all h' c' (d ∷ ds) lots dist r =
      let v = r.1.0 in
      ground (
        arith,
        v.holder,
        v.currency,
        left_of-take_out d.lot_id d.amount h' c' v.lot lots dist v.found v.enough,
        left_of-take_all h' c' ds (take_out d.lot_id d.amount lots)
            (Distinct-take_out d.lot_id d.amount lots dist) (Ready-take_out d ds lots r),
      )

pub Distinct-take_all :
    (ds : List Draw) (lots : List LotRow)
    → Distinct entry_id lots
    → Distinct entry_id (take_all ds lots)
Distinct-take_all [] lots d = d
Distinct-take_all (x ∷ ds) lots d =
    Distinct-take_all ds (take_out x.lot_id x.amount lots)
      (Distinct-take_out x.lot_id x.amount lots d)

pub All-take_all_id :
    (id : ℕ) (ds : List Draw) (lots : List LotRow)
    → All (λ l. l.entry_id ≢ id) lots
    → All (λ l. l.entry_id ≢ id) (take_all ds lots)
All-take_all_id id [] lots f = f
All-take_all_id id (x ∷ ds) lots f =
    All-take_all_id id ds (take_out x.lot_id x.amount lots)
      (All-take_out_id x.lot_id x.amount id lots f)

pub All-take_all_le :
    (ds : List Draw) (lots : List LotRow)
    → All (λ l. l.remaining ≤ l.amount) lots
    → All (λ l. l.remaining ≤ l.amount) (take_all ds lots)
All-take_all_le [] lots f = f
All-take_all_le (x ∷ ds) lots f =
    All-take_all_le ds (take_out x.lot_id x.amount lots) (All-take_out_le x.lot_id x.amount lots f)

pub All-draw_rows :
    (P : DrawRow → Type 0) (entry : ℕ) (ds : List Draw) (rows : List DrawRow)
    → ((d : Draw) → P (draw_row entry d))
    → All P rows
    → All P (draw_rows entry ds rows)
All-draw_rows P entry [] rows f h = h
All-draw_rows P entry (d ∷ ds) rows f h =
    All-draw_rows P entry ds (draw_row entry d ∷ rows) f (f d, h)

-- A lot's remainder, nothing for a lot that is not there.
abbrev pub remaining_or_zero : Option LotRow → ℕ
remaining_or_zero none = 0
remaining_or_zero (some l) = l.remaining

abbrev pub remaining_at : ℕ → List LotRow → ℕ
remaining_at id lots = remaining_or_zero (find_lot id lots)

remaining_at-take_out :
    (id j n : ℕ) (lots : List LotRow) → remaining_at id (take_out j n lots) ≤ remaining_at id lots
remaining_at-take_out id j n [] = omega arith
remaining_at-take_out id j n (l ∷ lots) = ground (arith, remaining_at-take_out id j n lots)

-- No draw gives anything back.
pub remaining_at-take_all :
    (id : ℕ) (ds : List Draw) (lots : List LotRow)
    → remaining_at id (take_all ds lots) ≤ remaining_at id lots
remaining_at-take_all id [] lots = omega arith
remaining_at-take_all id (d ∷ ds) lots = omega (
  arith,
  remaining_at-take_out id d.lot_id d.amount lots,
  remaining_at-take_all id ds (take_out d.lot_id d.amount lots),
)
