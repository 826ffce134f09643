-- ===== src/Workflow/Machine.antt =====
-- packages/workflow/src/machine/definition.ts and machine.ts: a lifecycle as a table, checked when
-- it is built. A name (of a state, a trigger, an actor) is its list of UTF-16 code units.
pub mod Checked
pub mod Reach
pub mod Enough
use mortar.Prelude.{
  ℕ, zero, suc, ◌+◌, Bool, true, false, not, ◌&&◌, ◌||◌, Option, none, some, List, [], ◌∷◌, ◌++◌,
  map, filter, find, any, length, ltb, ◌==◌, if◌then◌else◌,
}

abbrev pub Name : Type 0
Name = List ℕ

abbrev pub name_eq : Name → Name → Bool
name_eq [] [] = true
name_eq [] (y ∷ ys) = false
name_eq (x ∷ xs) [] = false
name_eq (x ∷ xs) (y ∷ ys) = x == y && name_eq xs ys

-- `has` of a set, `includes` of a list.
abbrev pub has : Name → List Name → Bool
has name names = any (name_eq name) names

pub record Transition : Type 0 where
  pub from : Name
  pub to : Name
  pub trigger : Name
  pub by : List Name

pub record MachineDefinition : Type 0 where
  pub states : List Name
  pub initial : Name
  pub terminal : List Name
  pub transitions : List Transition
  pub due_bearing : Option (List Name)

-- What `problems` may say, and of what.
pub data Problem : Type 0 where
  no_states : Problem
  listed_twice : Name → Problem
  terminal_not_state : Name → Problem
  initial_not_state : Name → Problem
  initial_terminal : Name → Problem
  from_not_state : Transition → Problem
  to_not_state : Transition → Problem
  by_nobody : Transition → Problem
  out_of_terminal : Transition → Problem
  ambiguous : Transition → Name → Problem
  no_way_out : Name → Problem
  unreachable : Name → Problem
  due_not_state : Name → Problem
  due_terminal : Name → Problem

abbrev pub report : Bool → Problem → List Problem
report true p = p ∷ []
report false p = []

abbrev pub is_nil {ℓ} : {A : Type ℓ} → List A → Bool
is_nil [] = true
is_nil (x ∷ xs) = false

-- The states that stand earlier in the list too, each named once.
unfoldable pub duplicates : List Name → List Name → List Name → List Problem
duplicates before named [] = []
duplicates before named (s ∷ ss) =
    let again = listed_twice s ∷ duplicates (s ∷ before) (s ∷ named) ss in
    let once = duplicates (s ∷ before) named ss in
    if has s before && not (has s named) then again else once

unfoldable pub each_of : List Name → (Name → List Problem) → List Problem
each_of [] f = []
each_of (s ∷ ss) f = f s ++ each_of ss f

-- `${from}|${trigger}|${actor}`
abbrev pub key_of : Transition → Name → Name
key_of t actor = t.from ++ (b'|' ∷ (t.trigger ++ (b'|' ∷ actor)))

-- The loop over the actors of one transition, and the keys seen after it.
unfoldable pub check_actors : Transition → List Name → List Name → List Problem × List Name
check_actors t [] seen = ([], seen)
check_actors t (actor ∷ actors) seen =
    let (problems, seen_after) = check_actors t actors (key_of t actor ∷ seen) in
    (report (has (key_of t actor) seen) (ambiguous t actor) ++ problems, seen_after)

abbrev pub check_ends : MachineDefinition → Transition → List Problem
check_ends d t =
    report (not (has t.from d.states)) (from_not_state t)
    ++ report (not (has t.to d.states)) (to_not_state t)
    ++ report (is_nil t.by) (by_nobody t)
    ++ report (has t.from d.terminal) (out_of_terminal t)

unfoldable pub check_transitions : MachineDefinition → List Transition → List Name → List Problem
unfolding check_actors
check_transitions d [] seen = []
check_transitions d (t ∷ ts) seen =
    let (problems, seen_after) = check_actors t t.by seen in
    check_ends d t ++ problems ++ check_transitions d ts seen_after

abbrev pub leads_from : Name → Transition → Bool
leads_from s t = name_eq t.from s

-- One pass over the transitions: the states reached, and whether any is new.
unfoldable pub pass : List Transition → List Name → Bool → List Name × Bool
pass [] reached changed = (reached, changed)
pass (t ∷ ts) reached changed =
    let grown = pass ts (t.to ∷ reached) true in
    let same = pass ts reached changed in
    if has t.from reached && not (has t.to reached) then grown else same

-- Passes until one changes nothing, at most `n` of them.
unfoldable pub spread : ℕ → List Transition → List Name → List Name
unfolding pass
spread zero ts reached = reached
spread (suc n) ts reached =
    let (after, changed) = pass ts reached false in
    let rest = spread n ts after in if changed then rest else after

-- Every pass that changes anything reaches one more `to`.
unfoldable pub reachable : MachineDefinition → List Name
unfolding spread
reachable d = spread (suc (length d.transitions)) d.transitions (d.initial ∷ [])

abbrev pub or_default : List Name → Option (List Name) → List Name
or_default names none = names
or_default names (some given) = given

abbrev pub due_of : MachineDefinition → List Name
due_of d =
    or_default (filter (λ s. not (has s d.terminal) && not (name_eq s d.initial)) d.states)
      d.due_bearing

abbrev pub check_initial : MachineDefinition → List Problem
check_initial d =
    if not (has d.initial d.states)
    then initial_not_state d.initial ∷ []
    else report (has d.initial d.terminal) (initial_terminal d.initial)

abbrev pub check_due : MachineDefinition → Name → List Problem
check_due d s =
    if not (has s d.states)
    then due_not_state s ∷ []
    else report (has s d.terminal) (due_terminal s)

abbrev pub check_way_out : MachineDefinition → Name → List Problem
check_way_out d s =
    report (not (has s d.terminal) && not (any (leads_from s) d.transitions)) (no_way_out s)

-- Everything wrong with a definition, in the order of the source.
unfoldable pub problems_of : MachineDefinition → List Problem
unfolding duplicates each_of check_transitions reachable
problems_of d =
    report (is_nil d.states) no_states
    ++ duplicates [] [] d.states
    ++ each_of d.terminal (λ s. report (not (has s d.states)) (terminal_not_state s))
    ++ check_initial d
    ++ check_transitions d d.transitions []
    ++ each_of d.states (check_way_out d)
    ++ each_of d.states (λ s. report (not (has s (reachable d))) (unreachable s))
    ++ each_of (due_of d) (check_due d)

pub record Machine : Type 0 where
  pub states : List Name
  pub initial : Name
  pub terminal : List Name
  pub transitions : List Transition
  pub due_bearing : List Name

pub data Defined : Type 0 where
  defined : Machine → Defined
  invalid : List Problem → Defined

-- `defineMachine`
unfoldable pub define_machine : MachineDefinition → Defined
unfolding problems_of
define_machine d =
    if is_nil (problems_of d)
    then defined (record {
      states = d.states;
      initial = d.initial;
      terminal = d.terminal;
      transitions = d.transitions;
      due_bearing = due_of d;
    })
    else invalid (problems_of d)

abbrev pub is_state : Machine → Name → Bool
is_state m s = has s m.states

abbrev pub is_terminal : Machine → Name → Bool
is_terminal m s = has s m.terminal

abbrev pub may : Name → Name → Transition → Bool
may from by t = name_eq t.from from && has by t.by

abbrev pub fits : Name → Name → Name → Transition → Bool
fits from trigger by t = name_eq t.from from && name_eq t.trigger trigger && has by t.by

unfoldable pub transition_for : Machine → Name → Name → Name → Option Transition
transition_for m from trigger by = find (fits from trigger by) m.transitions

unfoldable pub available : Machine → Name → Name → List Transition
available m from by = filter (may from by) m.transitions

-- `isPastDue`, on milliseconds.
unfoldable pub is_past_due : Machine → Name → Option ℕ → ℕ → Bool
is_past_due m s none now = false
is_past_due m s (some due_at) now = has s m.due_bearing && ltb due_at now
