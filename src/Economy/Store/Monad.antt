-- ===== src/Economy/Store/Monad.antt =====
-- Stepping through a transaction: forwards by the result of its first part, and backwards from a
-- result of the whole.
use mortar.Prelude.{◌≡◌, refl, sym, ap, ◌∙◌, arith}
use mortar.Economy.Tables.{Tables, Error, Result, ok, err, M, ◌>>=◌, transaction}

module _ {A B : Type 0} where
  -- What comes after a part that returned.
  abbrev pub resume : (A → M B) → Result (A × Tables) → Result (B × Tables)
  resume f (ok r) = f r.0 r.1
  resume f (err e) = err e

  pub bind-resume : (m : M A) (f : A → M B) (t : Tables) → (m >>= f) t ≡ resume f (m t)
  bind-resume m f t = go (m t)
    where
      go :
          (r : Result (A × Tables))
          → (elim r as (λ _. Result (B × Tables)) [ ok s ↦ f s.0 s.1 | err e ↦ err e ]) ≡ resume f r
      go (ok r) = refl
      go (err e) = refl

  pub bind-ok :
      (m : M A) (f : A → M B) (t : Tables) {r : A × Tables} → m t ≡ ok r → (m >>= f) t ≡ f r.0 r.1
  bind-ok m f t e = bind-resume m f t ∙ ap (resume f) e

  pub of_bind-ok :
      (m : M A) (f : A → M B) (t : Tables) {r : B × Tables}
      → (m >>= f) t ≡ ok r
      → (s : A × Tables) × (m t ≡ ok s) × (f s.0 s.1 ≡ ok r)
  of_bind-ok m f t {r} e = go (m t) refl (sym (bind-resume m f t) ∙ e)
    where
      go :
          (x : Result (A × Tables))
          → m t ≡ x
          → resume f x ≡ ok r
          → (s : A × Tables) × (m t ≡ ok s) × (f s.0 s.1 ≡ ok r)
      go (ok s) p q = (s, p, q)
      go (err _) p q = cc

-- A transaction that answers has run to its end; one that refuses changed nothing.
pub transaction-ok :
    {A : Type 0} (m : M A) (t t' : Tables) {a : A} → transaction m t ≡ (ok a, t') → m t ≡ ok (a, t')
transaction-ok {A} m t t' {a} e = go (m t) refl e
  where
    go :
        (x : Result (A × Tables))
        → m t ≡ x
        → (elim x as (λ _. Result A × Tables) [ ok r ↦ (ok r.0, r.1) | err f ↦ (err f, t) ])
          ≡ (ok a, t')
        → m t ≡ ok (a, t')
    go (ok r) p q = ground arith
    go (err f) p q = ground arith

pub transaction-err :
    {A : Type 0} (m : M A) (t t' : Tables) (e : Error) → transaction m t ≡ (err e, t') → t' ≡ t
transaction-err {A} m t t' e h = go (m t) h
  where
    go :
        (x : Result (A × Tables))
        → (elim x as (λ _. Result A × Tables) [ ok r ↦ (ok r.0, r.1) | err f ↦ (err f, t) ])
          ≡ (err e, t')
        → t' ≡ t
    go (ok r) q = ground arith
    go (err f) q = ground arith
