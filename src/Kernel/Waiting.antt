-- ===== src/Kernel/Waiting.antt =====
-- kernel/src/syscall/mod.rs, with object/event.rs and object/interrupt.rs: the system calls that
-- create a channel, that wait for events and interrupts, and that ask whether an object has something
-- new. An `AtomicBool` is read and written by one task at a time. Userspace pointers are always
-- valid: `validate_write` accepts each one.
pub mod Laws
mod Examples
use poplar.Prelude.{
  Result, ok, err, ℕ, zero, suc, ◌^◌, Bool, true, false, not, Option, none, some, List, [], ◌∷◌,
  ltb, ◌==◌, if◌then◌else◌, Outcome, done, panic, put,
}
use poplar.Kernel.Handles.{KernelObject, channel, event, interrupt, Handles, add, get}
use poplar.Kernel.Channel.{ChannelEnd, Ends, new_channel}
use poplar.Kernel.Message.{Sender}

-- A task's handles and the channels, and the flags of all events and interrupts.
pub record World : Type 0 where
  pub task : Sender
  pub signalled : ℕ → Bool
  pub triggered : ℕ → Bool

-- The handle that is returned, and the one that is written to userspace. The ends have fresh names.
unfoldable pub create_channel : ℕ → ℕ → World → (ℕ × ℕ) × World
unfolding new_channel add
create_channel a b w =
    let (end_a_handle, h) = add (channel a) w.task.handles in
    let (end_b_handle, h') = add (channel b) h in
    (
      (end_a_handle, end_b_handle),
      record w { task = record { handles = h'; ends = new_channel a b w.task.ends } },
    )

unfoldable pub signal : ℕ → World → World
signal e w = record w { signalled = put w.signalled e true }

unfoldable pub clear : ℕ → World → World
clear e w = record w { signalled = put w.signalled e false }

unfoldable pub trigger : ℕ → World → World
trigger i w = record w { triggered = put w.triggered i true }

pub data WaitForEventError : Type 0 where
  invalid_event_handle no_event : WaitForEventError

pub data PollInterestError : Type 0 where
  invalid_handle unsupported_object_type : PollInterestError

abbrev pub Waited : Type 0
Waited = Result (Unit {0}) WaitForEventError × World

-- `compare_exchange(true, false, ..)`
unfoldable pub take_signal : ℕ → World → Waited
unfolding clear
take_signal e w = if w.signalled e then (ok tt, clear e w) else (err WaitForEventError.no_event, w)

module _ (schedule : World → World) where
  -- The loop that waits, for at most `fuel` runs. `schedule(TaskState::Ready)` returns when the task
  -- runs again, with what the others have done.
  unfoldable pub wait_loop : ℕ → ℕ → World → Option Waited
  unfolding take_signal
  wait_loop zero e w = none
  wait_loop (suc fuel) e w =
      let rest = wait_loop fuel e (schedule w) in
      if w.signalled e then some (take_signal e w) else rest

  abbrev pub wait_on : ℕ → Option KernelObject → Bool → World → Option Waited
  wait_on fuel (some (event e)) true w = wait_loop fuel e w
  wait_on fuel (some (event e)) false w = some (take_signal e w)
  wait_on fuel other block w = some (err WaitForEventError.invalid_event_handle, w)

  unfoldable pub wait_for_event : ℕ → ℕ → ℕ → World → Option Waited
  unfolding get wait_loop
  wait_for_event fuel event_handle block w =
      if not (ltb event_handle (2 ^ 32))
      then some (err WaitForEventError.invalid_event_handle, w)
      else wait_on fuel (get event_handle w.task.handles) (not (block == 0)) w

abbrev pub has_messages : ChannelEnd → Bool
has_messages end = elim (end.messages) [ [] ↦ false | message ∷ messages ↦ true ]

abbrev pub interest : Bool → Result ℕ PollInterestError
interest interesting = ok (if interesting then 2 ^ 16 else 0)

abbrev pub end_interest : Option ChannelEnd → Outcome (Result ℕ PollInterestError)
end_interest none = panic
end_interest (some end) = done (interest (has_messages end))

abbrev pub object_interest : World → Option KernelObject → Outcome (Result ℕ PollInterestError)
object_interest w none = done (err PollInterestError.invalid_handle)
object_interest w (some (channel c)) = end_interest (w.task.ends c)
object_interest w (some (event e)) = done (interest (w.signalled e))
object_interest w (some (interrupt i)) = done (interest (w.triggered i))
object_interest w (some other) = done (err PollInterestError.unsupported_object_type)

unfoldable pub poll_interest : ℕ → World → Outcome (Result ℕ PollInterestError)
unfolding get
poll_interest object_handle w =
    if not (ltb object_handle (2 ^ 32))
    then done (err PollInterestError.invalid_handle)
    else object_interest w (get object_handle w.task.handles)
