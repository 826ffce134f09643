-- ===== src/Economy/Service/Found.antt =====
-- The lot of a purchase, as it is found before the lock and read again under it.
use mortar.Prelude.{
  ℕ, ◌≡◌, refl, ap, subst, inl, inr, true, Option, none, some, List, [], ◌∷◌, arith, ◌==◌, All,
  Bool-cases,
}
use mortar.Economy.Kinds.{CreditKind, is_refundable}
use mortar.Economy.Store.{lot_of, find_lot, owns}
use mortar.Economy.Tables.{LotRow, Tables, ok, to_amount, missing_row, not_found}
use mortar.Economy.Service.{bought, read_again, find_bought}
use mortar.Economy.Requests.{RefundRequest}
use mortar.Economy.Service.Effects.{require_effect}

pub to_amount_effect : (n m : ℕ) (t t' : Tables) → to_amount n t ≡ ok (m, t') → (t' ≡ t) × (m ≡ n)
to_amount_effect n m t t' e = (ground arith, ground arith)

pub All-find_lot :
    (P : LotRow → Type 0) (id : ℕ) (l : LotRow) (lots : List LotRow)
    → All P lots
    → find_lot id lots ≡ some l
    → P l
All-find_lot P id l [] f e = cc
All-find_lot P id l (m ∷ lots) (f, fs) e = elim (Bool-cases (m.entry_id == id)) [
  | inl same ↦ subst P (ground arith) f
  | inr other ↦ All-find_lot P id l lots fs (ground arith)
]

pub find_lot-id :
    (id : ℕ) (l : LotRow) (lots : List LotRow) → find_lot id lots ≡ some l → l.entry_id ≡ id
find_lot-id id l [] e = cc
find_lot-id id l (m ∷ lots) e = ground (arith, find_lot-id id l lots)

-- The lot that the holder owns by an id is the row of that id.
pub lot_of_effect :
    (h id : ℕ) (t : Tables) (l : LotRow)
    → lot_of h id t ≡ some l
    → (find_lot id t.lots ≡ some l) × (l.holder ≡ h)
unfolding lot_of
lot_of_effect h id t l e = go (find_lot id t.lots) refl e
  where
    go :
        (o : Option LotRow)
        → find_lot id t.lots ≡ o
        → owns h o ≡ some l
        → (find_lot id t.lots ≡ some l) × (l.holder ≡ h)
    go none p q = cc
    go (some m) p q = (ground arith, ground arith)

pub lot_of-same : (h id : ℕ) (t u : Tables) → t.lots ≡ u.lots → lot_of h id t ≡ lot_of h id u
unfolding lot_of
lot_of-same h id t u e = ap (λ ls. owns h (find_lot id ls)) e

-- Read again under the lock, the lot is the one that was found.
pub read_again_effect :
    (h : ℕ) (r : RefundRequest) (found : LotRow) (t t' : Tables) (l : LotRow)
    → lot_of h r.purchase_id t ≡ some found
    → read_again h r t ≡ ok (l, t')
    → (t' ≡ t) × (l ≡ found)
unfolding read_again
read_again_effect h r found t t' l owned e =
    let (same, read) = require_effect (lot_of h r.purchase_id t) missing_row t t' l e in (same, cc)

pub find_bought_effect :
    (h : ℕ) (r : RefundRequest) (found : LotRow) (t t' : Tables)
    → find_bought h r t ≡ ok (found, t')
    → (t' ≡ t) × (lot_of h r.purchase_id t ≡ some found)
unfolding find_bought
find_bought_effect h r found t t' e =
    let (same, read) =
      require_effect (bought (lot_of h r.purchase_id t)) (not_found r.purchase_id) t t' found e in
    (same, is_bought (lot_of h r.purchase_id t) found read)
  where
    is_bought : (o : Option LotRow) (l : LotRow) → bought o ≡ some l → o ≡ some l
    is_bought none l p = cc
    is_bought (some m) l p = ground arith

pub whole_lot :
    (l : LotRow) (amt : ℕ) → is_refundable l.kind amt l.remaining ≡ true → l.remaining ≡ amt
whole_lot l amt e = go l.kind e
  where
    go : (k : CreditKind) → is_refundable k amt l.remaining ≡ true → l.remaining ≡ amt
    go CreditKind.purchase p = ground arith
    go CreditKind.grant p = cc
