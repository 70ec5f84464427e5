-- ===== src/Kernel/Scheduler/Invariant/Switch.antt =====
-- `schedule` with a task that is ready: the running task gives way to it.
use poplar.Prelude.{
  put, ℕ, ◌<◌, ◌≡◌, refl, true, false, some, List, [], ◌∷◌, ◌++◌, ◌==◌, arith, done, ◌∙◌, ap,
}
use poplar.Kernel.Task.{
  TaskBlock, TaskState, ready, running, blocked, is_ready, is_running, is_blocked, State,
  not_active, active, is_active, is_not_active,
}
use poplar.Kernel.Scheduler.{CpuScheduler, System, switch_task, schedule}
use poplar.Kernel.Scheduler.Invariant.{occurrences, held, space_state, IsValid, occurrences-push}

module _ (current next : ℕ) (rest waiting : List ℕ) (states : ℕ → TaskState) (spaces : ℕ → State)
    (space_of : ℕ → ℕ) where
  -- The task `current` runs and `next` is at the front of the ready queue.
  abbrev pub before : System
  before = record {
    cpu = record {
      running_task = some current;
      ready_queue = next ∷ rest;
      blocked_queue = waiting;
    };
    states = states;
    spaces = spaces;
    space_of = space_of;
  }

  abbrev pub after_queues : TaskState → CpuScheduler
  after_queues (blocked b) = record {
    running_task = some next;
    ready_queue = rest;
    blocked_queue = waiting ++ (current ∷ []);
  }
  after_queues other = record {
    running_task = some next;
    ready_queue = rest ++ (current ∷ []);
    blocked_queue = waiting;
  }

  -- The task `next` runs, and `current` has gone to the back of the queue for its new state.
  abbrev pub after : TaskState → System
  after new_state = record {
    cpu = after_queues new_state;
    states = put (put states next running) current new_state;
    spaces = put (put spaces (space_of current) not_active) (space_of next) active;
    space_of = space_of;
  }

  module _ (v : IsValid before) where
    next-is_ready : states next ≡ ready
    unfolding occurrences
    next-is_ready = v.are_ready next (ground arith)

    current-is_running : states current ≡ running
    current-is_running = v.is_running current refl

    apart : (current == next) ≡ false
    unfolding occurrences
    apart = let once = v.once current in ground arith

    current_space : spaces (space_of current) ≡ active
    current_space = v.spaces_fit (space_of current) ∙ ground arith

    next_space : put spaces (space_of current) not_active (space_of next) ≡ not_active
    next_space = let fit = v.spaces_fit (space_of next) in ground (arith, fit)

    pub schedule_ready : schedule (λ k. k) ready before ≡ done (after ready)
    unfolding schedule switch_task
    schedule_ready =
        rw
          (
            ap is_running current-is_running,
            ap is_ready next-is_ready,
            ap is_active current_space,
            ap is_not_active next_space,
          )
          refl

    pub schedule_blocked :
        (b : TaskBlock) → schedule (λ k. k) (blocked b) before ≡ done (after (blocked b))
    unfolding schedule switch_task
    schedule_blocked b =
        rw
          (
            ap is_running current-is_running,
            ap is_ready next-is_ready,
            ap is_active current_space,
            ap is_not_active next_space,
          )
          refl

    pub after-held : (s : TaskState) (x : ℕ) → held (after_queues s) x ≡ held before.cpu x
    unfolding occurrences
    after-held ready x = omega (arith, occurrences-push x current rest)
    after-held running x = omega (arith, occurrences-push x current rest)
    after-held (blocked b) x = omega (arith, occurrences-push x current waiting)

    after-spaces :
        (s : ℕ)
        → put (put spaces (space_of current) not_active) (space_of next) active s
          ≡ space_state space_of (some next) s
    after-spaces s = let fit = v.spaces_fit s in ground (arith, fit)

    after_running :
        (new_state : TaskState) (x : ℕ)
        → some next ≡ some x
        → put (put states next running) current new_state x ≡ running
    after_running new_state x e = let same : next ≡ x = cc in rw (← same) (ground (arith, apart))

    -- A task that stays where it is keeps its state.
    others_ready :
        (new_state : TaskState) (x : ℕ)
        → 0 < occurrences x rest
        → put (put states next running) current new_state x ≡ ready
    unfolding occurrences
    others_ready new_state x h =
        let once = v.once x in let was = v.are_ready x (omega arith) in ground arith

    others_blocked :
        (new_state : TaskState) (x : ℕ)
        → 0 < occurrences x waiting
        → is_blocked (put (put states next running) current new_state x) ≡ true
    unfolding occurrences
    others_blocked new_state x h =
        let once = v.once x in let was = v.are_blocked x h in ground arith

    parked :
        (new_state : TaskState)
        → put (put states next running) current new_state current ≡ new_state
    parked new_state = ground arith

    pub after_ready-IsValid : IsValid (after ready)
    after_ready-IsValid = record {
      once = λ x. omega (arith, after-held ready x, v.once x);
      is_running = after_running ready;
      are_ready = λ x h. ground (arith, occurrences-push x current rest, others_ready ready x);
      are_blocked = others_blocked ready;
      spaces_fit = after-spaces;
    }

    pub after_blocked-IsValid : (b : TaskBlock) → IsValid (after (blocked b))
    after_blocked-IsValid b = record {
      once = λ x. omega (arith, after-held (blocked b) x, v.once x);
      is_running = after_running (blocked b);
      are_ready = others_ready (blocked b);
      are_blocked =
          λ x h. ground (arith, occurrences-push x current waiting, others_blocked (blocked b) x);
      spaces_fit = after-spaces;
    }
