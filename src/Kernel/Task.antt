-- ===== src/Kernel/Task.antt =====
-- kernel/src/object/task.rs and address_space.rs: the states of tasks and of address spaces.
use poplar.Prelude.{ℕ, Bool, true, false, Outcome, done, ◌>>◌, assert}

-- What a task waits for: an event, by its object's identity.
pub data TaskBlock : Type 0 where
  on_event : ℕ → TaskBlock

pub data TaskState : Type 0 where
  ready running : TaskState
  blocked : TaskBlock → TaskState

abbrev pub is_ready : TaskState → Bool
is_ready ready = true
is_ready other = false

abbrev pub is_running : TaskState → Bool
is_running running = true
is_running other = false

abbrev pub is_blocked : TaskState → Bool
is_blocked (blocked b) = true
is_blocked other = false

-- `address_space::State`
pub data State : Type 0 where
  not_active active : State

abbrev pub is_active : State → Bool
is_active not_active = false
is_active active = true

abbrev pub is_not_active : State → Bool
is_not_active not_active = true
is_not_active active = false

-- `AddressSpace::switch_to` and `AddressSpace::switch_from`, but for loading the page tables.
abbrev pub switch_to : State → Outcome State
switch_to s = assert (is_not_active s) >> done active

abbrev pub switch_from : State → Outcome State
switch_from s = assert (is_active s) >> done not_active
