-- ===== src/Kernel/Scheduler/Start.antt =====
-- `start_scheduling`: the first drop into userspace.
use poplar.Prelude.{put, ℕ, ◌≡◌, refl, none, some, List, ◌∷◌, arith, done, sym, ap, subst, Outcome}
use poplar.Kernel.Task.{TaskState, ready, running, is_ready, is_not_active, State, active}
use poplar.Kernel.Scheduler.{System, start_scheduling, drop_to_userspace}
use poplar.Kernel.Scheduler.Invariant.{occurrences, held, IsValid}

-- What `start_scheduling` ends in.
abbrev pub Starts : System → ℕ → Outcome System → Type 0
Starts k first result =
    (k' : System) × (result ≡ done k')
    × IsValid k'
    × (k'.cpu.running_task ≡ some first)
    × ((x : ℕ) → held k'.cpu x ≡ held k.cpu x)

module _ (first : ℕ) (rest waiting : List ℕ) (states : ℕ → TaskState) (spaces : ℕ → State)
    (space_of : ℕ → ℕ) where
  abbrev idle : System
  idle = record {
    cpu = record { running_task = none; ready_queue = first ∷ rest; blocked_queue = waiting };
    states = states;
    spaces = spaces;
    space_of = space_of;
  }

  abbrev started : System
  started = record {
    cpu = record { running_task = some first; ready_queue = rest; blocked_queue = waiting };
    states = put states first running;
    spaces = put spaces (space_of first) active;
    space_of = space_of;
  }

  module _ (v : IsValid idle) where
    first-is_ready : states first ≡ ready
    unfolding occurrences
    first-is_ready = v.are_ready first (ground arith)

    started-IsValid : IsValid started
    unfolding occurrences
    started-IsValid = record {
      once = λ x. omega (arith, v.once x);
      is_running = λ x e. let same : first ≡ x = cc in ground (arith, same);
      are_ready =
          λ x h. let once = v.once x in let was = v.are_ready x (omega arith) in ground arith;
      are_blocked = λ x h. let once = v.once x in let was = v.are_blocked x h in ground arith;
      spaces_fit = λ s. let fit = v.spaces_fit s in ground (arith, fit);
    }

    start_idle : Starts idle first (start_scheduling (λ k. k) idle)
    unfolding start_scheduling drop_to_userspace occurrences
    start_idle = (
      started,
      rw (ap is_ready first-is_ready, ap is_not_active (v.spaces_fit (space_of first))) refl,
      started-IsValid,
      refl,
      λ x. omega arith,
    )

-- `start_scheduling` before any task runs: the first ready task runs, in the state `running` and
-- with its address space active, and the invariant holds.
pub start_scheduling-IsValid :
    (tick : System → System) (k : System) (first : ℕ) (rest : List ℕ)
    → IsValid (tick k)
    → (tick k).cpu.running_task ≡ none
    → (tick k).cpu.ready_queue ≡ first ∷ rest
    → Starts (tick k) first (start_scheduling tick k)
unfolding start_scheduling
start_scheduling-IsValid tick k first rest v none_runs front =
    let s = tick k in
    let p : idle first rest s.cpu.blocked_queue s.states s.spaces s.space_of ≡ s = λ i. record {
      cpu = record {
        running_task = sym none_runs i;
        ready_queue = sym front i;
        blocked_queue = s.cpu.blocked_queue;
      };
      states = s.states;
      spaces = s.spaces;
      space_of = s.space_of;
    } in
    subst (λ s'. Starts s' first (start_scheduling (λ k'. k') s')) p
      (start_idle first rest s.cpu.blocked_queue s.states s.spaces s.space_of
        (subst IsValid (sym p) v))
