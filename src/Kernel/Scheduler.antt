-- ===== src/Kernel/Scheduler.antt =====
-- kernel/src/scheduler.rs: the queues of tasks of a processor, and switching between tasks.
pub mod Invariant
pub mod Laws
pub mod Start
mod Examples
use poplar.Prelude.{
  ℕ, ◌+◌, Bool, Option, none, some, List, [], ◌∷◌, ◌++◌, ◌==◌, if◌then◌else◌, Outcome, done, panic,
  ◌>>=◌, ◌>>◌, assert, unwrap, put,
}
use poplar.Kernel.Task.{
  TaskState, ready, running, blocked, is_ready, is_running, State, not_active, active, switch_to,
  switch_from,
}

-- Tasks are named by natural numbers. Both queues are lists from front to back.
pub record CpuScheduler : Type 0 where
  pub running_task : Option ℕ
  pub ready_queue : List ℕ
  pub blocked_queue : List ℕ

-- The processor's scheduler and the objects that it shares with the rest of the kernel: the state
-- of each task, the state of each address space, and the address space of each task.
pub record System : Type 0 where
  pub cpu : CpuScheduler
  pub states : ℕ → TaskState
  pub spaces : ℕ → State
  pub space_of : ℕ → ℕ

unfoldable pub new : CpuScheduler
new = record { running_task = none; ready_queue = []; blocked_queue = [] }

abbrev pub set_state : ℕ → TaskState → System → System
set_state task state k = record {
  cpu = k.cpu;
  states = put k.states task state;
  spaces = k.spaces;
  space_of = k.space_of;
}

abbrev pub set_cpu : CpuScheduler → System → System
set_cpu cpu k = record { cpu = cpu; states = k.states; spaces = k.spaces; space_of = k.space_of }

abbrev pub set_space : ℕ → State → System → System
set_space space state k = record {
  cpu = k.cpu;
  states = k.states;
  spaces = put k.spaces space state;
  space_of = k.space_of;
}

-- `choose_next`: `pop_front`.
abbrev pub choose_next : CpuScheduler → Option ℕ × CpuScheduler
choose_next cpu = elim (cpu.ready_queue) [
  | [] ↦ (none, cpu)
  | task ∷ rest ↦ (
    some task,
    record {
      running_task = cpu.running_task;
      ready_queue = rest;
      blocked_queue = cpu.blocked_queue;
    },
  )
]

abbrev pub push_ready : ℕ → CpuScheduler → CpuScheduler
push_ready task cpu = record {
  running_task = cpu.running_task;
  ready_queue = cpu.ready_queue ++ (task ∷ []);
  blocked_queue = cpu.blocked_queue;
}

abbrev pub push_blocked : ℕ → CpuScheduler → CpuScheduler
push_blocked task cpu = record {
  running_task = cpu.running_task;
  ready_queue = cpu.ready_queue;
  blocked_queue = cpu.blocked_queue ++ (task ∷ []);
}

abbrev pub set_running : ℕ → CpuScheduler → CpuScheduler
set_running task cpu = record {
  running_task = some task;
  ready_queue = cpu.ready_queue;
  blocked_queue = cpu.blocked_queue;
}

-- `add_task`, which looks at the task's state.
abbrev pub enqueue : ℕ → TaskState → System → Outcome System
enqueue task ready k = done (set_cpu (push_ready task k.cpu) k)
enqueue task (blocked b) k = done (set_cpu (push_blocked task k.cpu) k)
enqueue task running k = panic

unfoldable pub add_task : ℕ → System → Outcome System
add_task task k = enqueue task (k.states task) k

-- The `match new_state` of `switch_to`: where the task that gives way goes.
abbrev pub park : TaskState → ℕ → System → Outcome System
park running current k = panic
park ready current k = done (set_cpu (push_ready current k.cpu) (set_state current ready k))
park (blocked b) current k =
    done (set_cpu (push_blocked current k.cpu) (set_state current (blocked b) k))

abbrev pub enter_space : ℕ → System → Outcome System
enter_space space k = do state ← switch_to (k.spaces space); done (set_space space state k)

abbrev pub leave_space : ℕ → System → Outcome System
leave_space space k = do state ← switch_from (k.spaces space); done (set_space space state k)

-- `Scheduler::switch_to`, up to the platform's `context_switch`.
unfoldable pub switch_task : TaskState → ℕ → System → Outcome System
switch_task new_state next k = do
  current ← unwrap k.cpu.running_task
  assert (is_running (k.states current))
  assert (is_ready (k.states next))
  parked ← park new_state current (set_state next running (set_cpu (set_running next k.cpu) k))
  left ← leave_space (k.space_of current) parked
  enter_space (k.space_of next) left

-- `Scheduler::drop_to_userspace`, up to the platform's `drop_into_userspace`.
unfoldable pub drop_to_userspace : ℕ → System → Outcome System
drop_to_userspace task k =
    enter_space (k.space_of task) (set_cpu (set_running task k.cpu) (set_state task running k))

abbrev pub is_none : Option ℕ → Bool
is_none none = Bool.true
is_none (some t) = Bool.false

abbrev pub is_some : Option ℕ → Bool
is_some none = Bool.false
is_some (some t) = Bool.true

-- `tick` polls the kernel's tasklets first.
module _ (tick : System → System) where
  -- `schedule`: with no task that is ready, the current one goes on.
  abbrev pub switch_or_stay : TaskState → Option ℕ → System → Outcome System
  switch_or_stay new_state none k = done k
  switch_or_stay new_state (some next) k = switch_task new_state next k

  unfoldable pub schedule : TaskState → System → Outcome System
  schedule new_state before =
      let k = tick before in
      let (next, cpu) = choose_next k.cpu in
      assert (is_some k.cpu.running_task) >> switch_or_stay new_state next (set_cpu cpu k)

  unfoldable pub start_scheduling : System → Outcome System
  start_scheduling before =
      let k = tick before in
      let (next, cpu) = choose_next k.cpu in
      do
        assert (is_none k.cpu.running_task)
        task ← unwrap next
        assert (is_ready (k.states task))
        drop_to_userspace task (set_cpu cpu k)
