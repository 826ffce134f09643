-- ===== src/Workflow/Machine/Checked.antt =====
-- What a machine that was built promises: one answer at most for a state, a trigger and an actor,
-- and a way out of every state that is not terminal.
use mortar.Prelude.{
  ℕ, ◌≤◌, ◌≡◌, refl, sym, ap, ◌∙◌, subst, inl, inr, Bool, true, false, not, ◌&&◌, List, [], ◌∷◌,
  ◌++◌, any, filter, length, arith, Bool-cases, ==_iff,
}
use mortar.Workflow.Machine.{
  Name, name_eq, has, Transition, MachineDefinition, Problem, report, is_nil, each_of, key_of,
  check_actors, check_ends, check_transitions, leads_from, check_way_out, problems_of, Machine,
  defined, define_machine, due_of, unreachable, no_way_out, fits, ambiguous, check_due, reachable,
}

pub name_eq_refl : (x : Name) → name_eq x x ≡ true
name_eq_refl [] = refl
name_eq_refl (x ∷ xs) = ground (arith, name_eq_refl xs)

pub name-eq : (x y : Name) → name_eq x y ≡ true → x ≡ y
name-eq [] [] h = refl
name-eq [] (y ∷ ys) h = cc
name-eq (x ∷ xs) [] h = cc
name-eq (x ∷ xs) (y ∷ ys) h =
    let first : x ≡ y = (==_iff x y).0 (ground arith) in
    let rest : xs ≡ ys = name-eq xs ys (ground arith) in
    ap (λ (n : ℕ). n ∷ xs) first ∙ ap (λ l. y ∷ l) rest

is_nil-append :
    {A : Type 0} (xs ys : List A)
    → is_nil (xs ++ ys) ≡ true
    → (is_nil xs ≡ true) × (is_nil ys ≡ true)
is_nil-append [] ys h = (refl, h)
is_nil-append (x ∷ xs) ys h = cc

pub report-nil : (b : Bool) (p : Problem) → is_nil (report b p) ≡ true → b ≡ false
report-nil true p h = cc
report-nil false p h = refl

pub each_of-nil :
    (s : Name) (ss : List Name) (f : Name → List Problem)
    → is_nil (each_of ss f) ≡ true
    → has s ss ≡ true
    → is_nil (f s) ≡ true
unfolding each_of
each_of-nil s [] f h m = cc
each_of-nil s (x ∷ xs) f h m =
    let (first, rest) = is_nil-append (f x) (each_of xs f) h in
    elim (Bool-cases (name_eq s x)) [
      | inl same ↦ subst (λ (n : Name). is_nil (f n) ≡ true) (sym (name-eq s x same)) first
      | inr other ↦ each_of-nil s xs f rest (ground arith)
    ]

-- Keys only ever join the set.
check_actors-keeps :
    (k : Name) (t : Transition) (actors seen : List Name)
    → has k seen ≡ true
    → has k (check_actors t actors seen).1 ≡ true
unfolding check_actors
check_actors-keeps k t [] seen h = h
check_actors-keeps k t (a ∷ rest) seen h =
    check_actors-keeps k t rest (key_of t a ∷ seen) (ground arith)

-- An actor whose key was not refused was new, and is known from there on.
check_actors-new :
    (t : Transition) (b : Name) (actors seen : List Name)
    → is_nil (check_actors t actors seen).0 ≡ true
    → has b actors ≡ true
    → (has (key_of t b) seen ≡ false) × (has (key_of t b) (check_actors t actors seen).1 ≡ true)
unfolding check_actors
check_actors-new t b [] seen h m = cc
check_actors-new t b (a ∷ rest) seen h m =
    let after_a = check_actors t rest (key_of t a ∷ seen) in
    let (first, others) =
      is_nil-append (report (has (key_of t a) seen) (ambiguous t a)) after_a.0 h in
    let fresh = report-nil (has (key_of t a) seen) (ambiguous t a) first in
    elim (Bool-cases (name_eq b a)) [
      | inl same ↦
          let known : has (key_of t a) (key_of t a ∷ seen) ≡ true =
            rw (name_eq_refl (key_of t a)) refl in
          subst
            (λ (n : Name). (has (key_of t n) seen ≡ false) × (has (key_of t n) after_a.1 ≡ true))
            (sym (name-eq b a same))
            (fresh, check_actors-keeps (key_of t a) t rest (key_of t a ∷ seen) known)
      | inr apart ↦
          let (new, known) = check_actors-new t b rest (key_of t a ∷ seen) others (ground arith) in
          (ground arith, known)
    ]

of_check_transitions :
    (d : MachineDefinition) (t : Transition) (ts : List Transition) (seen : List Name)
    → is_nil (check_transitions d (t ∷ ts) seen) ≡ true
    → let actors = check_actors t t.by seen in
      (is_nil (check_ends d t) ≡ true)
      × (is_nil actors.0 ≡ true)
      × (is_nil (check_transitions d ts actors.1) ≡ true)
unfolding check_transitions
of_check_transitions d t ts seen h =
    let actors = check_actors t t.by seen in
    let (before, others) =
      is_nil-append (check_ends d t ++ actors.0) (check_transitions d ts actors.1) h in
    let (ends, own) = is_nil-append (check_ends d t) actors.0 before in (ends, own, others)

-- The transitions that answer to one state, trigger and actor.
module _ (from trigger by : Name) where
  abbrev key : Name
  key = key_of (record { from = from; to = []; trigger = trigger; by = [] }) by

  abbrev count : List Transition → ℕ
  count ts = length (filter (fits from trigger by) ts)

  fits-key : (t : Transition) → fits from trigger by t ≡ true → key_of t by ≡ key
  fits-key t h =
      let same_from : t.from ≡ from = name-eq t.from from (ground arith) in
      let same_trigger : t.trigger ≡ trigger = name-eq t.trigger trigger (ground arith) in
      ap (λ (n : Name). n ++ (b'|' ∷ (t.trigger ++ (b'|' ∷ by)))) same_from
      ∙ ap (λ (n : Name). from ++ (b'|' ∷ (n ++ (b'|' ∷ by)))) same_trigger

  count_seen :
      (d : MachineDefinition) (ts : List Transition) (seen : List Name)
      → is_nil (check_transitions d ts seen) ≡ true
      → (has key seen ≡ true → count ts ≡ 0) × (count ts ≤ 1)
  unfolding check_transitions
  count_seen d [] seen h = (λ _. refl, omega arith)
  count_seen d (t ∷ ts) seen h =
      let actors = check_actors t t.by seen in
      let (_, own, others) = of_check_transitions d t ts seen h in
      let (none_left, one_left) = count_seen d ts actors.1 others in
      elim (Bool-cases (fits from trigger by t)) [
        | inl answers ↦
            let (new, known) = check_actors-new t by t.by seen own (ground arith) in
            let fresh : has key seen ≡ false =
              subst (λ (n : Name). has n seen ≡ false) (fits-key t answers) new in
            let no_more =
              none_left (subst (λ (n : Name). has n actors.1 ≡ true) (fits-key t answers) known) in
            (λ before. cc, rw answers (omega (arith, no_more)))
        | inr other ↦
            rw other (λ before. none_left (check_actors-keeps key t t.by seen before), one_left)
      ]

-- What a definition that was accepted has passed.
pub record Passed (d : MachineDefinition) : Type 0 where
  pub moves : is_nil (check_transitions d d.transitions []) ≡ true
  pub ways_out : is_nil (each_of d.states (check_way_out d)) ≡ true
  pub reached :
      is_nil (each_of d.states (λ s. report (not (has s (reachable d))) (unreachable s))) ≡ true

pub define_machine-Passed :
    (d : MachineDefinition) (m : Machine) → define_machine d ≡ defined m → Passed d
unfolding define_machine problems_of
define_machine-Passed d m h =
    let nothing : is_nil (problems_of d) ≡ true = elim (Bool-cases (is_nil (problems_of d))) [
      | inl e ↦ e
      | inr e ↦ ground arith
    ] in
    let (to_due, _) = is_nil-append _ (each_of (due_of d) (check_due d)) nothing in
    let (to_reach, reached) =
      is_nil-append _ (each_of d.states (λ s. report (not (has s (reachable d))) (unreachable s)))
        to_due in
    let (to_out, ways_out) = is_nil-append _ (each_of d.states (check_way_out d)) to_reach in
    let (_, moves) = is_nil-append _ (check_transitions d d.transitions []) to_out in
    record { moves = moves; ways_out = ways_out; reached = reached }

of_ends :
    (d : MachineDefinition) (ts : List Transition) (seen : List Name) (s : Name)
    → is_nil (check_transitions d ts seen) ≡ true
    → any (leads_from s) ts ≡ true
    → any (λ t. leads_from s t && has t.to d.states && not (is_nil t.by)) ts ≡ true
unfolding check_transitions
of_ends d [] seen s h m = cc
of_ends d (t ∷ ts) seen s h m =
    let (ends, _, others) = of_check_transitions d t ts seen h in
    elim (Bool-cases (leads_from s t)) [
      | inl leads ↦ rw leads (ground arith)
      | inr other ↦ rw other (of_ends d ts (check_actors t t.by seen).1 s others (ground arith))
    ]

pub built_from :
    (d : MachineDefinition) (m : Machine)
    → define_machine d ≡ defined m
    → (m.states ≡ d.states)
      × (m.terminal ≡ d.terminal)
      × (m.transitions ≡ d.transitions)
      × (m.initial ≡ d.initial)
unfolding define_machine
built_from d m h = elim (Bool-cases (is_nil (problems_of d))) [
  | inl fine ↦ (ground arith, ground arith, ground arith, ground arith)
  | inr wrong ↦ ground arith
]

-- In a machine that was built, at most one transition answers to a state, a trigger and an actor.
pub define_machine-fits :
    (d : MachineDefinition) (m : Machine) (from trigger by : Name)
    → define_machine d ≡ defined m
    → length (filter (fits from trigger by) m.transitions) ≤ 1
define_machine-fits d m from trigger by h =
    let (_, _, same, _) = built_from d m h in
    subst (λ ts. length (filter (fits from trigger by) ts) ≤ 1) (sym same)
      (count_seen from trigger by d d.transitions [] (define_machine-Passed d m h).moves).1

-- In a machine that was built, every state that is not terminal has a transition out of it that
-- somebody may make and that leads to a state.
pub define_machine-leads_from :
    (d : MachineDefinition) (m : Machine) (s : Name)
    → define_machine d ≡ defined m
    → has s m.states ≡ true
    → has s m.terminal ≡ false
    → any (λ t. leads_from s t && has t.to m.states && not (is_nil t.by)) m.transitions ≡ true
define_machine-leads_from d m s h among ends =
    let passed = define_machine-Passed d m h in
    let (states, terminal, same, _) = built_from d m h in
    let way =
      report-nil _ (no_way_out s)
        (each_of-nil s d.states (check_way_out d) passed.ways_out (rw (sym states) among)) in
    let out : any (leads_from s) d.transitions ≡ true = ground (arith, terminal) in
    rw (states, same) (of_ends d d.transitions [] s passed.moves out)
