-- ===== src/Economy/Allocate/Waits.antt =====
-- A lot is drawn on only when those ranked before it are taken whole.
use mortar.Prelude.{
  ℕ, ◌-◌, ◌≤◌, ◌<◌, min, ◌≡◌, ◌≢◌, refl, sym, subst, inl, inr, true, false, List, [], ◌∷◌, arith,
  ◌==◌, if◌then◌else◌, All, All-mono, All-of, All-zip, Forward, Distinct, sum_by, Bool-cases,
}
use mortar.Economy.Allocate.{Lot, Draw, take_from}
use mortar.Economy.Allocate.Amounts.{drawn, take_from-sum}

abbrev pub drawn_from : ℕ → List Draw → ℕ
drawn_from id ds = sum_by (λ d. if d.lot_id == id then d.amount else 0) ds

abbrev pub lot_id : Lot → ℕ
lot_id lot = lot.id

-- `b` is drawn on only when `a` is taken whole.
abbrev pub Waits : List Draw → Lot → Lot → Type 0
Waits ds a b = 0 < drawn_from b.id ds → drawn_from a.id ds ≡ a.remaining

drawn_from-le : (id : ℕ) (ds : List Draw) → drawn_from id ds ≤ sum_by drawn ds
drawn_from-le id [] = omega arith
drawn_from-le id (d ∷ ds) = ground (arith, drawn_from-le id ds)

drawn_from-fresh :
    (id left : ℕ) (lots : List Lot)
    → All (λ lot. lot.id ≢ id) lots
    → drawn_from id (take_from lots left).0 ≡ 0
unfolding take_from
drawn_from-fresh id left [] f = refl
drawn_from-fresh id left (lot ∷ lots) (f, fs) =
    ground (arith, drawn_from-fresh id (left - min lot.remaining left) lots fs)

drawn_from-ne :
    (a : ℕ) (d : Draw) (ds : List Draw) → d.lot_id ≢ a → drawn_from a (d ∷ ds) ≡ drawn_from a ds
drawn_from-ne a d ds h = ground arith

Waits-cons :
    (d : Draw) (ds : List Draw) (a b : Lot)
    → a.id ≢ d.lot_id
    → b.id ≢ d.lot_id
    → Waits ds a b
    → Waits (d ∷ ds) a b
Waits-cons d ds a b p q w h = ground (arith, w (ground arith))

Forward-cons :
    (d : Draw) (ds : List Draw) (lots : List Lot)
    → All (λ lot. lot.id ≢ d.lot_id) lots
    → Forward (Waits ds) lots
    → Forward (Waits (d ∷ ds)) lots
Forward-cons d ds [] f w = tt
Forward-cons d ds (lot ∷ lots) (f, fs) (w, ws) = (
  All-zip (λ b. b.id ≢ d.lot_id) (Waits ds lot) (Waits (d ∷ ds) lot) lots
      (λ b p q. Waits-cons d ds lot b f p q) fs w,
  Forward-cons d ds lots fs ws,
)

Forward-nil : (lots : List Lot) → Forward (Waits []) lots
Forward-nil [] = tt
Forward-nil (lot ∷ lots) =
    (All-of (Waits [] lot) lots (λ b h. absurd (omega arith)), Forward-nil lots)

-- The first lot is taken whole before anything is left for those behind it.
first_Waits :
    (lot : Lot) (lots : List Lot) (left : ℕ) (b : Lot)
    → All (λ l. l.id ≢ lot.id) lots
    → b.id ≢ lot.id
    → let taken = min lot.remaining left in
      Waits (record { lot_id = lot.id; amount = taken } ∷ (take_from lots (left - taken)).0) lot b
first_Waits lot lots left b fresh ne h =
    let taken = min lot.remaining left in
    ground (
      arith,
      take_from-sum lots (left - taken),
      drawn_from-le b.id (take_from lots (left - taken)).0,
      drawn_from-fresh lot.id (left - taken) lots fresh,
    )

pub take_from-stop :
    (lot : Lot) (lots : List Lot) (left : ℕ)
    → (left == 0) ≡ true
    → (take_from (lot ∷ lots) left).0 ≡ []
unfolding take_from
take_from-stop lot lots left e = ground arith

pub take_from-more :
    (lot : Lot) (lots : List Lot) (left : ℕ)
    → (left == 0) ≡ false
    → (take_from (lot ∷ lots) left).0
      ≡ record { lot_id = lot.id; amount = min lot.remaining left }
        ∷ (take_from lots (left - min lot.remaining left)).0
unfolding take_from
take_from-more lot lots left e = ground arith

pub take_from-Forward :
    (lots : List Lot) (left : ℕ)
    → Distinct lot_id lots
    → Forward (Waits (take_from lots left).0) lots
take_from-Forward [] left d = tt
take_from-Forward (lot ∷ lots) left (f, d) = elim (Bool-cases (left == 0)) [
  | inl e ↦
      subst (λ ds. Forward (Waits ds) (lot ∷ lots)) (sym (take_from-stop lot lots left e))
        (Forward-nil (lot ∷ lots))
  | inr e ↦
      subst (λ ds. Forward (Waits ds) (lot ∷ lots)) (sym (take_from-more lot lots left e))
        (
          All-mono (λ b. b.id ≢ lot.id) _ lots (λ b ne. first_Waits lot lots left b f ne) f,
          Forward-cons _ _ lots f (take_from-Forward lots (left - min lot.remaining left) d),
        )
]
