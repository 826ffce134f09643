-- ===== src/Workflow/Machine/Reach.antt =====
-- The states that the search reaches are those that transitions lead to, and its passes are enough.
use mortar.Prelude.{
  ℕ, zero, suc, ◌≡◌, sym, subst, inl, inr, Bool, true, false, not, ◌&&◌, List, [], ◌∷◌, length, All,
  arith, Bool-cases,
}
use mortar.Workflow.Machine.{
  Name, name_eq, has, Transition, MachineDefinition, pass, spread, reachable, Machine, defined,
  define_machine, unreachable,
}
use mortar.Workflow.Machine.Checked.{
  name-eq, define_machine-Passed, built_from, each_of-nil, report-nil,
}

-- A transition that stands in a table.
pub data IsAmong (t : Transition) : List Transition → Type 0 where
  stands_first : (ts : List Transition) → IsAmong t (t ∷ ts)
  stands_later : (u : Transition) (ts : List Transition) → IsAmong t ts → IsAmong t (u ∷ ts)

-- A state that transitions lead to from `start`.
pub data Reaches (ts : List Transition) (start : Name) : Name → Type 0 where
  at_start : Reaches ts start start
  by_move : (t : Transition) → IsAmong t ts → Reaches ts start t.from → Reaches ts start t.to

module _ (P : Name → Type 0) where
  of_has : (s : Name) (names : List Name) → All P names → has s names ≡ true → P s
  of_has s [] h m = cc
  of_has s (x ∷ xs) (p, ps) m = elim (Bool-cases (name_eq s x)) [
    | inl same ↦ subst P (sym (name-eq s x same)) p
    | inr other ↦ of_has s xs ps (ground arith)
  ]

  pass-All :
      (ts : List Transition) (reached : List Name) (changed : Bool)
      → All (λ t. P t.from → P t.to) ts
      → All P reached
      → All P (pass ts reached changed).0
  unfolding pass
  pass-All [] reached changed f h = h
  pass-All (t ∷ ts) reached changed (f, fs) h =
      elim (Bool-cases (has t.from reached && not (has t.to reached))) [
        | inl new ↦
            rw new
              (pass-All ts (t.to ∷ reached) true fs (f (of_has t.from reached h (ground arith)), h))
        | inr old ↦ rw old (pass-All ts reached changed fs h)
      ]

  spread-All :
      (n : ℕ) (ts : List Transition) (reached : List Name)
      → All (λ t. P t.from → P t.to) ts
      → All P reached
      → All P (spread n ts reached)
  unfolding spread
  spread-All zero ts reached f h = h
  spread-All (suc n) ts reached f h =
      let after = pass-All ts reached false f h in
      elim (Bool-cases (pass ts reached false).1) [
        | inl more ↦ rw more (spread-All n ts (pass ts reached false).0 f after)
        | inr done ↦ rw done after
      ]

All-IsAmong :
    (P : Transition → Type 0) (ts : List Transition)
    → ((t : Transition) → IsAmong t ts → P t)
    → All P ts
All-IsAmong P [] f = tt
All-IsAmong P (t ∷ ts) f =
    (f t (stands_first ts), All-IsAmong P ts (λ u a. f u (stands_later t ts a)))

reachable-Reaches : (d : MachineDefinition) → All (Reaches d.transitions d.initial) (reachable d)
unfolding reachable
reachable-Reaches d =
    spread-All (Reaches d.transitions d.initial) (suc (length d.transitions)) d.transitions
      (d.initial ∷ [])
      (All-IsAmong
        (λ t. Reaches d.transitions d.initial t.from → Reaches d.transitions d.initial t.to)
        d.transitions (λ t a r. by_move t a r))
      (at_start, tt)

-- In a machine that was built, transitions lead from the initial state to every state.
pub define_machine-Reaches :
    (d : MachineDefinition) (m : Machine) (s : Name)
    → define_machine d ≡ defined m
    → has s m.states ≡ true
    → Reaches m.transitions m.initial s
define_machine-Reaches d m s h among =
    let (states, _, same, start) = built_from d m h in
    let found =
      report-nil _ (unreachable s)
        (each_of-nil s d.states _ (define_machine-Passed d m h).reached (rw (sym states) among)) in
    rw (same, start)
      (of_has (Reaches d.transitions d.initial) s (reachable d) (reachable-Reaches d)
        (ground arith))
