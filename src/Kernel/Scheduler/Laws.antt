-- ===== src/Kernel/Scheduler/Laws.antt =====
-- The operations of the scheduler keep its invariant, lose no task, and give each ready task its
-- turn.
use poplar.Prelude.{
  ℕ, zero, suc, ◌+◌, ◌≡◌, refl, false, some, List, [], ◌∷◌, ◌++◌, ◌==◌, if◌then◌else◌, arith, done,
  panic, sym, subst, Outcome, get_elem?, ◌>>=◌,
}
use poplar.Kernel.Task.{TaskState, ready, running, blocked, is_running, State}
use poplar.Kernel.Scheduler.{System, schedule, add_task, enqueue}
use poplar.Kernel.Scheduler.Invariant.{held, IsValid, occurrences-push}
use poplar.Kernel.Scheduler.Invariant.Switch.{
  after, after-held, schedule_ready, schedule_blocked, after_ready-IsValid, after_blocked-IsValid,
}

-- The task that runs next: the first that is ready, and if there is none the current one.
abbrev pub next_task : ℕ → List ℕ → ℕ
next_task current [] = current
next_task current (next ∷ rest) = next

-- What a call of `schedule` ends in.
abbrev pub Reschedules : System → ℕ → Outcome System → Type 0
Reschedules k current result =
    (k' : System) × (result ≡ done k')
    × IsValid k'
    × (k'.cpu.running_task ≡ some (next_task current k.cpu.ready_queue))
    × ((x : ℕ) → held k'.cpu x ≡ held k.cpu x)

module _ (current : ℕ) (waiting : List ℕ) (states : ℕ → TaskState) (spaces : ℕ → State)
    (space_of : ℕ → ℕ) where
  abbrev with_queue : List ℕ → System
  with_queue queue = record {
    cpu = record { running_task = some current; ready_queue = queue; blocked_queue = waiting };
    states = states;
    spaces = spaces;
    space_of = space_of;
  }

  schedule_cases :
      (new_state : TaskState) (queue : List ℕ)
      → is_running new_state ≡ false
      → IsValid (with_queue queue)
      → Reschedules (with_queue queue) current (schedule (λ k. k) new_state (with_queue queue))
  unfolding schedule
  schedule_cases new_state [] h v = (with_queue [], refl, v, refl, λ x. refl)
  schedule_cases ready (next ∷ rest) h v = (
    after current next rest waiting states spaces space_of ready,
    schedule_ready current next rest waiting states spaces space_of v,
    after_ready-IsValid current next rest waiting states spaces space_of v,
    refl,
    after-held current next rest waiting states spaces space_of v ready,
  )
  schedule_cases (blocked b) (next ∷ rest) h v = (
    after current next rest waiting states spaces space_of (blocked b),
    schedule_blocked current next rest waiting states spaces space_of v b,
    after_blocked-IsValid current next rest waiting states spaces space_of v b,
    refl,
    after-held current next rest waiting states spaces space_of v (blocked b),
  )
  schedule_cases running (next ∷ rest) h v = absurd (cc)

at_current :
    (s : System) (current : ℕ)
    → s.cpu.running_task ≡ some current
    → with_queue current s.cpu.blocked_queue s.states s.spaces s.space_of s.cpu.ready_queue ≡ s
at_current s current e = λ i. record {
  cpu = record {
    running_task = sym e i;
    ready_queue = s.cpu.ready_queue;
    blocked_queue = s.cpu.blocked_queue;
  };
  states = s.states;
  spaces = s.spaces;
  space_of = s.space_of;
}

-- `schedule` into a state other than `running`, called while a task runs: it does not panic, the
-- invariant holds again, the first ready task runs (the current one goes on if there is none), and
-- the scheduler holds each task as often as before. What polling the tasklets leaves is assumed to
-- satisfy the invariant.
pub schedule-IsValid :
    (tick : System → System) (new_state : TaskState) (k : System) (current : ℕ)
    → is_running new_state ≡ false
    → IsValid (tick k)
    → (tick k).cpu.running_task ≡ some current
    → Reschedules (tick k) current (schedule tick new_state k)
unfolding schedule
schedule-IsValid tick new_state k current h v e =
    let s = tick k in
    let p = at_current s current e in
    subst (λ s'. Reschedules s' current (schedule (λ k'. k') new_state s')) p
      (schedule_cases current s.cpu.blocked_queue s.states s.spaces s.space_of new_state
        s.cpu.ready_queue h (subst IsValid (sym p) v))

-- `count` yields, one after the other, with no tasklet to poll.
unfoldable pub yields : ℕ → System → Outcome System
yields zero k = done k
yields (suc count) k = schedule (λ k. k) ready k >>= yields count

get_elem?-append :
    (xs ys : List ℕ) (i t : ℕ) → get_elem? xs i ≡ some t → get_elem? (xs ++ ys) i ≡ some t
get_elem?-append [] ys i t h = absurd (cc)
get_elem?-append (x ∷ xs) ys zero t h = h
get_elem?-append (x ∷ xs) ys (suc i) t h = get_elem?-append xs ys i t h

module _ (waiting : List ℕ) (space_of : ℕ → ℕ) where
  turn :
      (i current t : ℕ) (queue : List ℕ) (states : ℕ → TaskState) (spaces : ℕ → State)
      → IsValid (with_queue current waiting states spaces space_of queue)
      → get_elem? queue i ≡ some t
      → (k' : System) × (yields (suc i) (with_queue current waiting states spaces space_of queue)
          ≡ done k')
        × IsValid k'
        × (k'.cpu.running_task ≡ some t)
  unfolding yields
  turn i current t [] states spaces v h = absurd (cc)
  turn zero current t (next ∷ rest) states spaces v h = (
    after current next rest waiting states spaces space_of ready,
    rw (schedule_ready current next rest waiting states spaces space_of v) refl,
    after_ready-IsValid current next rest waiting states spaces space_of v,
    h,
  )
  turn (suc i) current t (next ∷ rest) states spaces v h =
      let v' = after_ready-IsValid current next rest waiting states spaces space_of v in
      let (k', runs, valid, now) =
        turn i next t (rest ++ (current ∷ [])) _ _ v'
          (get_elem?-append rest (current ∷ []) i t h) in
      (k', rw (schedule_ready current next rest waiting states spaces space_of v) runs, valid, now)

-- The ready task at position `i` of the queue runs after `i + 1` yields, with no tasklet to poll:
-- no ready task is overtaken or starved.
pub yields_turn :
    (k : System) (current i t : ℕ)
    → IsValid k
    → k.cpu.running_task ≡ some current
    → get_elem? k.cpu.ready_queue i ≡ some t
    → (k' : System) × (yields (suc i) k ≡ done k') × IsValid k' × (k'.cpu.running_task ≡ some t)
yields_turn k current i t v e h =
    let p = at_current k current e in
    subst
      (λ s.
        (k' : System) × (yields (suc i) s ≡ done k') × IsValid k' × (k'.cpu.running_task ≡ some t))
      p
      (turn k.cpu.blocked_queue k.space_of i current t k.cpu.ready_queue k.states k.spaces
        (subst IsValid (sym p) v) h)

-- What a call of `add_task` ends in, given the task's state.
abbrev pub Adds : ℕ → System → TaskState → Outcome System → Type 0
Adds task k running result = result ≡ panic
Adds task k other result =
    (k' : System) × (result ≡ done k')
    × IsValid k'
    × ((x : ℕ) → held k'.cpu x ≡ held k.cpu x + (if x == task then 1 else 0))

enqueued :
    (task : ℕ) (k : System)
    → IsValid k
    → held k.cpu task ≡ 0
    → (state : TaskState) → k.states task ≡ state
    → Adds task k state (enqueue task state k)
enqueued task k v fresh running e = refl
enqueued task k v fresh ready e = (
  _,
  refl,
  record {
    once = λ x.
        let once = v.once x in ground (arith, occurrences-push x task k.cpu.ready_queue, fresh);
    is_running = v.is_running;
    are_ready = λ x h. ground (arith, occurrences-push x task k.cpu.ready_queue, v.are_ready x, e);
    are_blocked = v.are_blocked;
    spaces_fit = v.spaces_fit;
  },
  λ x. omega (arith, occurrences-push x task k.cpu.ready_queue),
)
enqueued task k v fresh (blocked b) e = (
  _,
  refl,
  record {
    once = λ x.
        let once = v.once x in ground (arith, occurrences-push x task k.cpu.blocked_queue, fresh);
    is_running = v.is_running;
    are_ready = v.are_ready;
    are_blocked =
        λ x h. ground (arith, occurrences-push x task k.cpu.blocked_queue, v.are_blocked x, e);
    spaces_fit = v.spaces_fit;
  },
  λ x. omega (arith, occurrences-push x task k.cpu.blocked_queue),
)

-- `add_task` panics for a task that is running; any other task that the scheduler does not hold yet
-- is then held once, nothing else changes hands, and the invariant still holds.
pub add_task-Adds :
    (task : ℕ) (k : System)
    → IsValid k
    → held k.cpu task ≡ 0
    → Adds task k (k.states task) (add_task task k)
unfolding add_task
add_task-Adds task k v fresh = enqueued task k v fresh (k.states task) refl
