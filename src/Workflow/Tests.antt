-- ===== src/Workflow/Tests.antt =====
-- Lifecycles to try the theorems of packages/workflow on.
use mortar.Prelude.{◌≤◌, ◌≡◌, refl, false, none, List, [], ◌∷◌, filter, length, All}
use mortar.Workflow.Machine.{
  Name, Transition, MachineDefinition, Machine, define_machine, defined, fits, reachable,
}
use mortar.Workflow.Machine.Checked.{define_machine-fits}
use mortar.Workflow.Machine.Enough.{is_new, reachable-is_new}
use mortar.Workflow.Machine.Reach.{Reaches, define_machine-Reaches}

abbrev open_state : Name
open_state = b'o' ∷ []

abbrev done_state : Name
done_state = b'd' ∷ []

abbrev finish : Name
finish = b'f' ∷ []

abbrev clerk : Name
clerk = b'c' ∷ []

abbrev one_move : List Transition
one_move = record { from = open_state; to = done_state; trigger = finish; by = clerk ∷ [] } ∷ []

abbrev job : MachineDefinition
job = record {
  states = open_state ∷ done_state ∷ [];
  initial = open_state;
  terminal = done_state ∷ [];
  transitions = one_move;
  due_bearing = none;
}

abbrev job_machine : Machine
job_machine = record {
  states = open_state ∷ done_state ∷ [];
  initial = open_state;
  terminal = done_state ∷ [];
  transitions = one_move;
  due_bearing = [];
}

job_built : define_machine job ≡ defined job_machine
unfolding define_machine
job_built = refl

define_machine-fits_example : length (filter (fits open_state finish clerk) one_move) ≤ 1
define_machine-fits_example = define_machine-fits job job_machine open_state finish clerk job_built

define_machine-Reaches_example : Reaches one_move open_state done_state
define_machine-Reaches_example = define_machine-Reaches job job_machine done_state job_built refl

reachable-is_new_example : All (λ t. is_new (reachable job) t ≡ false) one_move
reachable-is_new_example = reachable-is_new job
