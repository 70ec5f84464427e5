-- ===== src/Kernel/Waiting/Examples.antt =====
-- A task that creates a channel, and one that waits for an event which another task signals.
use poplar.Prelude.{ok, err, ℕ, ◌^◌, ◌≡◌, refl, false, none, some, List, [], ◌∷◌, arith, done, ◌⊎◌}
use poplar.Kernel.Handles
use poplar.Kernel.Handles.{event, Handles, add, get}
use poplar.Kernel.Handles.Laws.{IsValid}
use poplar.Kernel.Message.{Sender, send_message}
use poplar.Kernel.Waiting.{
  World, create_channel, signal, clear, WaitForEventError, wait_for_event, poll_interest,
}
use poplar.Kernel.Waiting.Laws.{
  create_channel_carries, poll_interest-wait_for_event, after_schedules, wait_for_event_returns,
}

abbrev fresh_world : World
unfolding Handles.new
fresh_world = record {
  task = record { handles = Handles.new; ends = λ c. none };
  signalled = λ e. false;
  triggered = λ i. false;
}

new-IsValid : IsValid Handles.new
unfolding Handles.new get
new-IsValid = record {
  positive = omega arith;
  in_range = omega arith;
  unused = λ handle le. refl;
  no_zero = refl;
}

abbrev bytes_at : ℕ → ℕ → List ℕ
bytes_at address count = 7 ∷ 8 ∷ []

create_channel_carries_example :
    (s : Sender) × (send_message bytes_at bytes_at
        (create_channel 3 4 fresh_world).0.0
        4096
        2
        0
        0
        (create_channel 3 4 fresh_world).1.task
      ≡ (ok tt, s))
    × (s.ends 4
        ≡ some (record {
          messages = record { bytes = 7 ∷ 8 ∷ []; handle_objects = [] } ∷ [];
          other_end = some 3;
        }))
    × (poll_interest
          (create_channel 3 4 fresh_world).0.1
          (record (create_channel 3 4 fresh_world).1 { task = s })
        ≡ done (ok (2 ^ 16)))
    × (poll_interest
          (create_channel 3 4 fresh_world).0.0
          (record (create_channel 3 4 fresh_world).1 { task = s })
        ≡ done (ok 0))
unfolding Handles.new
create_channel_carries_example =
    create_channel_carries bytes_at bytes_at 3 4 4096 2 0 fresh_world
      (λ e. absurd (omega (arith, e))) new-IsValid (omega arith) (omega arith)

-- Handle 1 is event 5.
abbrev waiting_world : World
unfolding Handles.new add
waiting_world = record fresh_world {
  task = record fresh_world.task { handles = (add (event 5) Handles.new).1 };
}

poll_interest-wait_for_event_example :
    ((poll_interest 1 (signal 5 waiting_world) ≡ done (ok (2 ^ 16)))
      × (wait_for_event (λ w. w) 1 1 0 (signal 5 waiting_world)
          ≡ some (ok tt, clear 5 (signal 5 waiting_world)))
      × (poll_interest 1 (clear 5 (signal 5 waiting_world)) ≡ done (ok 0)))
    ⊎ ((poll_interest 1 (signal 5 waiting_world) ≡ done (ok 0))
        × (wait_for_event (λ w. w) 1 1 0 (signal 5 waiting_world)
            ≡ some (err WaitForEventError.no_event, signal 5 waiting_world)))
unfolding Handles.new add get signal
poll_interest-wait_for_event_example =
    poll_interest-wait_for_event (λ w. w) 1 1 5 (signal 5 waiting_world) (omega arith) refl

wait_for_event_returns_example :
    wait_for_event (signal 5) 2 1 1 waiting_world
    ≡ some (ok tt, clear 5 (after_schedules (signal 5) 1 waiting_world))
unfolding Handles.new add get signal
wait_for_event_returns_example =
    wait_for_event_returns (signal 5) 1 2 1 1 5 waiting_world (omega arith) (omega arith) refl
      (λ m le. let first : m ≡ 0 = omega (arith, le) in rw (first) refl) refl (omega arith)
