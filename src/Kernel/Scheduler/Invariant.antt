-- ===== src/Kernel/Scheduler/Invariant.antt =====
-- What the scheduler keeps true: a task is in one place, in the state that fits it, and the running
-- task's address space is the active one.
pub mod Switch
use poplar.Prelude.{
  ℕ, suc, ◌+◌, ◌≤◌, ◌<◌, ◌≡◌, refl, Bool, true, false, Option, none, some, List, [], ◌∷◌, ◌++◌,
  ◌==◌, if◌then◌else◌, arith,
}
use poplar.Kernel.Task.{TaskState, ready, running, blocked, is_blocked, State, not_active, active}
use poplar.Kernel.Scheduler.{CpuScheduler, System}

unfoldable pub occurrences : ℕ → List ℕ → ℕ
occurrences x [] = 0
occurrences x (y ∷ ys) = (if x == y then 1 else 0) + occurrences x ys

abbrev pub runs : ℕ → Option ℕ → ℕ
runs x none = 0
runs x (some y) = if x == y then 1 else 0

-- How often the scheduler holds a task.
abbrev pub held : CpuScheduler → ℕ → ℕ
held cpu x =
    runs x cpu.running_task + occurrences x cpu.ready_queue + occurrences x cpu.blocked_queue

-- The state that an address space should have, given the running task.
abbrev pub space_state : (ℕ → ℕ) → Option ℕ → ℕ → State
space_state space_of none s = not_active
space_state space_of (some task) s = if s == space_of task then active else not_active

pub record IsValid (k : System) : Type 0 where
  pub once : (x : ℕ) → held k.cpu x ≤ 1
  pub is_running : (x : ℕ) → k.cpu.running_task ≡ some x → k.states x ≡ running
  pub are_ready : (x : ℕ) → 0 < occurrences x k.cpu.ready_queue → k.states x ≡ ready
  pub are_blocked : (x : ℕ) → 0 < occurrences x k.cpu.blocked_queue → is_blocked (k.states x) ≡ true
  pub spaces_fit : (s : ℕ) → k.spaces s ≡ space_state k.space_of k.cpu.running_task s

pub occurrences-append :
    (x : ℕ) (xs ys : List ℕ) → occurrences x (xs ++ ys) ≡ occurrences x xs + occurrences x ys
unfolding occurrences
occurrences-append x [] ys = omega arith
occurrences-append x (z ∷ zs) ys = omega (arith, occurrences-append x zs ys)

pub occurrences-push :
    (x y : ℕ) (xs : List ℕ)
    → occurrences x (xs ++ (y ∷ [])) ≡ occurrences x xs + (if x == y then 1 else 0)
unfolding occurrences
occurrences-push x y xs = omega (arith, occurrences-append x xs (y ∷ []))
