-- ===== src/Kernel/Waiting/Laws.antt =====
-- What the system calls of Kernel/Waiting do together, and with `send_message`.
use poplar.Prelude.{
  ok, err, ℕ, zero, suc, ◌+◌, ◌%◌, ◌^◌, ◌≤◌, ◌<◌, ◌≡◌, refl, true, false, not, some, List, [], ◌∷◌,
  ltb, ◌==◌, if◌then◌else◌, arith, done, ◌⊎◌, inl, inr, Bool-cases,
}
use poplar.Kernel.Handles.{event, add, get}
use poplar.Kernel.Handles.Laws.{IsValid}
use poplar.Kernel.Channel.{new_channel, add_message}
use poplar.Kernel.Message.{take_handles, Sender, send_message, channel_max_num_bytes}
use poplar.Kernel.Message.Transfer.{send_message_arrives}
use poplar.Kernel.Waiting.{
  World, create_channel, clear, WaitForEventError, take_signal, wait_loop, wait_for_event,
  poll_interest,
}

-- A channel that is created, with fresh names for its ends, in a task with a valid table of handles
-- that has two handles left, carries bytes within the limit: sent to the handle that is returned, they
-- are the one message of the end that the other handle leads to, and then the other handle, and not
-- the returned one, has something new.
pub create_channel_carries :
    (read_bytes read_handles : ℕ → ℕ → List ℕ) (a b byte_address num_bytes handles_address : ℕ)
    (w : World)
    → ¬ (a ≡ b)
    → IsValid w.task.handles
    → w.task.handles.next + 2 < 2 ^ 32
    → num_bytes ≤ channel_max_num_bytes
    → (s : Sender) × (send_message read_bytes read_handles
          (create_channel a b w).0.0
          byte_address
          num_bytes
          handles_address
          0
          (create_channel a b w).1.task
        ≡ (ok tt, s))
      × (s.ends b
          ≡ some (record {
            messages =
                record {
                  bytes = if num_bytes == 0 then [] else read_bytes byte_address num_bytes;
                  handle_objects = [];
                }
                ∷ [];
            other_end = some a;
          }))
      × (poll_interest (create_channel a b w).0.1 (record (create_channel a b w).1 { task = s })
          ≡ done (ok (2 ^ 16)))
      × (poll_interest (create_channel a b w).0.0 (record (create_channel a b w).1 { task = s })
          ≡ done (ok 0))
unfolding create_channel add new_channel get take_handles poll_interest add_message
create_channel_carries read_bytes read_handles a b byte_address num_bytes handles_address w differ v
      room limit =
    let n = w.task.handles.next in
    let second : (n + 1) % 2 ^ 32 ≡ n + 1 = omega (arith, room) in
    let fits1 : not (ltb n (2 ^ 32)) ≡ false = ground (arith, room) in
    let fits2 : not (ltb (n + 1) (2 ^ 32)) ≡ false = ground (arith, room) in
    let other1 : (n == n + 1) ≡ false = ground arith in
    let other2 : (a == b) ≡ false = ground (arith, differ) in
    let task = (create_channel a b w).1.task in
    let sent =
      send_message_arrives read_bytes read_handles n byte_address num_bytes handles_address 0 a b []
        task.handles (record { messages = []; other_end = some b })
        (record { messages = []; other_end = some a }) task (omega (arith, room)) limit
        (omega arith) refl (rw (second) (ground arith)) (ground (arith, differ)) refl
        (ground arith) in
    (
      _,
      sent,
      ground arith,
      rw (second, poll_interest, fits2) (ground arith),
      rw (second, poll_interest, fits1) (ground (arith, differ)),
    )

-- A handle of an event has something new if, and only if, `wait_for_event` that does not block
-- succeeds. It then takes the signal, after which there is nothing new, and else it changes nothing.
pub poll_interest-wait_for_event :
    (schedule : World → World) (fuel event_handle e : ℕ) (w : World)
    → event_handle < 2 ^ 32
    → get event_handle w.task.handles ≡ some (event e)
    → ((poll_interest event_handle w ≡ done (ok (2 ^ 16)))
        × (wait_for_event schedule fuel event_handle 0 w ≡ some (ok tt, clear e w))
        × (poll_interest event_handle (clear e w) ≡ done (ok 0)))
      ⊎ ((poll_interest event_handle w ≡ done (ok 0))
          × (wait_for_event schedule fuel event_handle 0 w
              ≡ some (err WaitForEventError.no_event, w)))
unfolding poll_interest wait_for_event take_signal clear
poll_interest-wait_for_event schedule fuel event_handle e w small found =
    let fits : not (ltb event_handle (2 ^ 32)) ≡ false = ground arith in
    elim (Bool-cases (w.signalled e)) [
      | inl set ↦
          inl (
            rw (fits, found, set) refl,
            rw (fits, found, set) refl,
            rw (fits, found) (ground arith),
          )
      | inr unset ↦ inr (rw (fits, found, unset) refl, rw (fits, found, unset) refl)
    ]

module _ (schedule : World → World) where
  -- The task gives way so many times.
  abbrev pub after_schedules : ℕ → World → World
  after_schedules zero w = w
  after_schedules (suc n) w = after_schedules n (schedule w)

  loop_returns :
      (n fuel e : ℕ) (w : World)
      → ((m : ℕ) → m < n → (after_schedules m w).signalled e ≡ false)
      → (after_schedules n w).signalled e ≡ true
      → n < fuel
      → wait_loop schedule fuel e w ≡ some (ok tt, clear e (after_schedules n w))
  unfolding wait_loop take_signal
  loop_returns n zero e w before now enough = absurd (omega (arith, enough))
  loop_returns zero (suc fuel) e w before now enough = rw (now) refl
  loop_returns (suc n) (suc fuel) e w before now enough =
      let not_yet : w.signalled e ≡ false = before 0 (omega arith) in
      rw (not_yet) (
        loop_returns n fuel e (schedule w) (λ m le. before (suc m) (omega (arith, le))) now
          (omega (arith, enough)))

  -- When the event of a handle is signalled at last, after the task has given way so many times,
  -- `wait_for_event` that blocks returns then, and takes the signal.
  pub wait_for_event_returns :
      (n fuel event_handle block e : ℕ) (w : World)
      → event_handle < 2 ^ 32
      → 0 < block
      → get event_handle w.task.handles ≡ some (event e)
      → ((m : ℕ) → m < n → (after_schedules m w).signalled e ≡ false)
      → (after_schedules n w).signalled e ≡ true
      → n < fuel
      → wait_for_event schedule fuel event_handle block w
        ≡ some (ok tt, clear e (after_schedules n w))
  unfolding wait_for_event
  wait_for_event_returns n fuel event_handle block e w small blocks found before now enough =
      let fits : not (ltb event_handle (2 ^ 32)) ≡ false = ground arith in
      let waits : not (block == 0) ≡ true = ground arith in
      rw (fits, waits, found) (loop_returns n fuel e w before now enough)
