-- ===== src/Kernel/Channel.antt =====
-- kernel/src/object/channel.rs: channels of messages. Channel ends are named by natural numbers; a
-- weak reference upgrades as long as the end that it names is there.
pub mod Laws
use poplar.Prelude.{Result, ok, err, ℕ, ◌+◌, Option, none, some, List, [], ◌∷◌, ◌++◌, length, put}
use poplar.Kernel.Handles.{KernelObject}

-- `handle_objects` holds the transferred objects first and `None` after them.
pub record Message : Type 0 where
  pub bytes : List ℕ
  pub handle_objects : List KernelObject

pub record ChannelEnd : Type 0 where
  pub messages : List Message
  pub other_end : Option ℕ

abbrev pub Ends : Type 0
Ends = ℕ → Option ChannelEnd

unfoldable pub num_handles : Message → ℕ
num_handles message = length message.handle_objects

-- `new_channel` and `new_kernel_channel`, at fresh names.
unfoldable pub new_channel : ℕ → ℕ → Ends → Ends
new_channel a b ends =
    put (put ends a (some (record { messages = []; other_end = some b }))) b
      (some (record { messages = []; other_end = some a }))

unfoldable pub new_kernel_channel : ℕ → Ends → Ends
new_kernel_channel a ends = put ends a (some (record { messages = []; other_end = none }))

unfoldable pub add_message : ChannelEnd → Message → ChannelEnd
add_message end message = record {
  messages = end.messages ++ (message ∷ []);
  other_end = end.other_end;
}

pub data SendMessageError : Type 0 where
  invalid_channel_handle not_a_channel channel_cannot_send : SendMessageError
  invalid_transferred_handle cannot_transfer_handle bytes_address_invalid : SendMessageError
  too_many_bytes handles_address_invalid too_many_handles other_end_disconnected : SendMessageError

pub data GetMessageError : Type 0 where
  invalid_channel_handle not_a_channel no_message : GetMessageError
  bytes_address_invalid bytes_buffer_too_small : GetMessageError
  handles_address_invalid handles_buffer_too_small : GetMessageError

-- The upgraded reference to the other end.
abbrev pub deliver :
    ℕ → Option ChannelEnd → Message → Ends → Result (Unit {0}) SendMessageError × Ends
deliver b none message ends = (err SendMessageError.other_end_disconnected, ends)
deliver b (some end) message ends = (ok tt, put ends b (some (add_message end message)))

-- `send` through an end; a kernel channel discards the message.
abbrev pub send : ChannelEnd → Message → Ends → Result (Unit {0}) SendMessageError × Ends
send end message ends = elim (end.other_end) [
  | none ↦ (ok tt, ends)
  | some b ↦ deliver b (ends b) message ends
]

module _ {R : Type 0} where
  -- A message that the function does not take goes back to the front of the queue.
  abbrev pub taken :
      List Message
      → Option ℕ
      → Result R (Message × GetMessageError)
      → Result R GetMessageError × ChannelEnd
  taken rest other (ok value) = (ok value, record { messages = rest; other_end = other })
  taken rest other (err (message, e)) =
      (err e, record { messages = message ∷ rest; other_end = other })

  -- `receive`
  unfoldable pub receive :
      (Message → Result R (Message × GetMessageError))
      → ChannelEnd
      → Result R GetMessageError × ChannelEnd
  receive f end = elim (end.messages) [
    | [] ↦ (err GetMessageError.no_message, end)
    | message ∷ rest ↦ taken rest end.other_end (f message)
  ]
