-- ===== src/Workflow/Machine/Enough.antt =====
-- The passes that the search is given are enough: what it ends with, no transition leads out of.
use mortar.Prelude.{
  ℕ, zero, suc, ◌≤◌, ◌<◌, ◌≡◌, refl, inl, inr, Bool, true, false, not, ◌&&◌, List, [], ◌∷◌, length,
  All, arith, if◌then◌else◌, Bool-cases,
}
use mortar.Workflow.Machine.{Name, has, Transition, MachineDefinition, pass, spread, reachable}
use mortar.Workflow.Machine.Checked.{name_eq_refl}
use mortar.Workflow.Machine.Reach.{IsAmong, stands_first, stands_later}

-- How many transitions lead to a state that is not reached yet.
abbrev to_reach : List Transition → List Name → ℕ
to_reach [] reached = 0
to_reach (t ∷ ts) reached =
    if has t.to reached then to_reach ts reached else suc (to_reach ts reached)

-- A transition that leads from a reached state to one that is not.
abbrev pub is_new : List Name → Transition → Bool
is_new reached t = has t.from reached && not (has t.to reached)

abbrev Grows : List Name → List Name → Type 0
Grows r r' = (s : Name) → has s r ≡ true → has s r' ≡ true

pass-Grows : (ts : List Transition) (r : List Name) (c : Bool) → Grows r (pass ts r c).0
unfolding pass
pass-Grows [] r c s h = h
pass-Grows (t ∷ ts) r c s h = elim (Bool-cases (is_new r t)) [
  | inl new ↦ rw new (pass-Grows ts (t.to ∷ r) true s (ground arith))
  | inr old ↦ rw old (pass-Grows ts r c s h)
]

pass-changed : (ts : List Transition) (r : List Name) → (pass ts r true).1 ≡ true
unfolding pass
pass-changed [] r = refl
pass-changed (t ∷ ts) r = elim (Bool-cases (is_new r t)) [
  | inl new ↦ rw new (pass-changed ts (t.to ∷ r))
  | inr old ↦ rw old (pass-changed ts r)
]

to_reach-le :
    (ts : List Transition) (r r' : List Name) → Grows r r' → to_reach ts r' ≤ to_reach ts r
to_reach-le [] r r' g = omega arith
to_reach-le (t ∷ ts) r r' g = ground (arith, to_reach-le ts r r' g, g t.to)

to_reach-lt :
    (t : Transition) (ts : List Transition) (r r' : List Name)
    → IsAmong t ts
    → Grows r r'
    → has t.to r ≡ false
    → has t.to r' ≡ true
    → to_reach ts r' < to_reach ts r
to_reach-lt t ts r r' (stands_first us) g p q = ground (arith, to_reach-le us r r' g)
to_reach-lt t ts r r' (stands_later u us a) g p q =
    ground (arith, to_reach-lt t us r r' a g p q, g u.to)

to_reach-length : (ts : List Transition) (r : List Name) → to_reach ts r ≤ length ts
to_reach-length [] r = omega arith
to_reach-length (t ∷ ts) r = ground (arith, to_reach-length ts r)

-- A pass that says it changed nothing did not, and nothing was left to reach.
pass-same :
    (ts : List Transition) (r : List Name)
    → (pass ts r false).1 ≡ false
    → ((pass ts r false).0 ≡ r) × All (λ t. is_new r t ≡ false) ts
unfolding pass
pass-same [] r h = (refl, tt)
pass-same (t ∷ ts) r h = elim (Bool-cases (is_new r t)) [
  | inl new ↦ cc ((rw new at h), pass-changed ts (t.to ∷ r))
  | inr old ↦ let (same, closed) = pass-same ts r (rw old at h) in (rw old same, (old, closed))
]

-- A pass that changed something has reached a `to` that was not.
pass-new :
    (ts : List Transition) (r : List Name)
    → (pass ts r false).1 ≡ true
    → (t : Transition) × IsAmong t ts × (has t.to r ≡ false) × (has t.to (pass ts r false).0 ≡ true)
unfolding pass
pass-new [] r h = cc
pass-new (t ∷ ts) r h = elim (Bool-cases (is_new r t)) [
  | inl new ↦
      let known : has t.to (t.to ∷ r) ≡ true = rw (name_eq_refl t.to) refl in
      (t, stands_first ts, ground arith, rw new (pass-Grows ts (t.to ∷ r) true t.to known))
  | inr old ↦
      let (u, among, before, after) = pass-new ts r (rw old at h) in
      (u, stands_later t ts among, before, rw old after)
]

spread-closed :
    (n : ℕ) (ts : List Transition) (r : List Name)
    → to_reach ts r < n
    → All (λ t. is_new (spread n ts r) t ≡ false) ts
unfolding spread
spread-closed zero ts r h = absurd (omega arith)
spread-closed (suc n) ts r h = elim (Bool-cases (pass ts r false).1) [
  | inl more ↦
      let (t, among, before, after) = pass-new ts r more in
      let less =
        to_reach-lt t ts r (pass ts r false).0 among (pass-Grows ts r false) before after in
      rw more (spread-closed n ts (pass ts r false).0 (omega arith))
  | inr done ↦ let (same, closed) = pass-same ts r done in rw (done, same) closed
]

-- The passes that the search for reachable states is given are enough: no transition leads from a
-- state that it found to one that it did not.
pub reachable-is_new :
    (d : MachineDefinition) → All (λ t. is_new (reachable d) t ≡ false) d.transitions
unfolding reachable
reachable-is_new d =
    spread-closed (suc (length d.transitions)) d.transitions (d.initial ∷ [])
      (omega (arith, to_reach-length d.transitions (d.initial ∷ [])))
