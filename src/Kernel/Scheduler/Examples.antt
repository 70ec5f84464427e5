-- ===== src/Kernel/Scheduler/Examples.antt =====
-- Three tasks on one processor.
use poplar.Prelude.{◌≡◌, refl, none, some, [], ◌∷◌, arith, done, ◌==◌, if◌then◌else◌}
use poplar.Kernel.Task.{ready, running, blocked, on_event, not_active, active}
use poplar.Kernel.Scheduler.{System, schedule, add_task, start_scheduling}
use poplar.Kernel.Scheduler.Invariant.{IsValid, held, occurrences}
use poplar.Kernel.Scheduler.Laws.{
  Reschedules, Adds, schedule-IsValid, yields, yields_turn, add_task-Adds,
}
use poplar.Kernel.Scheduler.Start.{Starts, start_scheduling-IsValid}

-- Task 1 runs, 2 and 3 are ready, and each is in an address space of its own.
abbrev three : System
three = record {
  cpu = record { running_task = some 1; ready_queue = 2 ∷ 3 ∷ []; blocked_queue = [] };
  states = λ x. if x == 1 then running else ready;
  spaces = λ s. if s == 1 then active else not_active;
  space_of = λ x. x;
}

three-IsValid : IsValid three
unfolding occurrences
three-IsValid = record {
  once = λ x. ground arith;
  is_running = λ x e. let same : 1 ≡ x = cc in ground (arith, same);
  are_ready = λ x h. ground arith;
  are_blocked = λ x h. absurd (omega arith);
  spaces_fit = λ s. refl;
}

schedule-IsValid_example : Reschedules three 1 (schedule (λ k. k) (blocked (on_event 7)) three)
schedule-IsValid_example =
    schedule-IsValid (λ k. k) (blocked (on_event 7)) three 1 refl three-IsValid refl

yields_turn_example :
    (k' : System) × (yields 2 three ≡ done k') × IsValid k' × (k'.cpu.running_task ≡ some 3)
yields_turn_example = yields_turn three 1 1 3 three-IsValid refl refl

four_is_new : held three.cpu 4 ≡ 0
unfolding occurrences
four_is_new = refl

add_task-Adds_example : Adds 4 three ready (add_task 4 three)
add_task-Adds_example = add_task-Adds 4 three three-IsValid four_is_new

-- Nothing runs yet, and 1 and 2 are ready.
abbrev booted : System
booted = record {
  cpu = record { running_task = none; ready_queue = 1 ∷ 2 ∷ []; blocked_queue = [] };
  states = λ x. ready;
  spaces = λ s. not_active;
  space_of = λ x. x;
}

booted-IsValid : IsValid booted
unfolding occurrences
booted-IsValid = record {
  once = λ x. ground arith;
  is_running = λ x e. absurd (cc);
  are_ready = λ x h. refl;
  are_blocked = λ x h. absurd (omega arith);
  spaces_fit = λ s. refl;
}

start_scheduling-IsValid_example : Starts booted 1 (start_scheduling (λ k. k) booted)
start_scheduling-IsValid_example =
    start_scheduling-IsValid (λ k. k) booted 1 (2 ∷ []) booted-IsValid refl refl
