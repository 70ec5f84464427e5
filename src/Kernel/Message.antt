-- ===== src/Kernel/Message.antt =====
-- kernel/src/syscall/mod.rs: the system calls that send and receive messages.
pub mod Laws
pub mod Transfer
mod Examples
use poplar.Prelude.{
  Result, ok, err, ℕ, ◌+◌, ◌-◌, ◌*◌, ◌/◌, ◌%◌, ◌^◌, ◌≤◌, ◌<◌, ◌≡◌, Bool, true, false, not, ◌&&◌,
  Option, none, some, List, [], ◌∷◌, length, ltb, ◌==◌, if◌then◌else◌, Outcome, done, panic, put,
  ◌>>=◌, ◌>>◌, assert,
}
use poplar.BitField.{SetBits}
use poplar.Kernel.Handles.{KernelObject, channel, Handles, add, remove, get}
use poplar.Kernel.Channel.{
  Message, ChannelEnd, Ends, num_handles, SendMessageError, GetMessageError, send, receive,
}

abbrev pub channel_max_num_bytes : ℕ
channel_max_num_bytes = 4096

abbrev pub channel_max_num_handles : ℕ
channel_max_num_handles = 4

-- The objects of the transferred handles: each one is removed from the sending task as it is found,
-- and a handle without an object ends the loop.
unfoldable pub take_handles : List ℕ → Handles → Option (List KernelObject) × Handles
unfolding get remove
take_handles [] h = (some [], h)
take_handles (handle ∷ handles) h =
    let rest = take_handles handles (remove handle h) in
    elim (get handle h) [
      | none ↦ (none, h)
      | some object ↦
          (elim (rest.0) [ none ↦ none | some objects ↦ some (object ∷ objects) ], rest.1)
    ]

-- The sending task's handles and the channels.
pub record Sender : Type 0 where
  pub handles : Handles
  pub ends : Ends

abbrev pub Sent : Type 0
Sent = Result (Unit {0}) SendMessageError × Sender

abbrev pub finish : Handles → Result (Unit {0}) SendMessageError × Ends → Sent
finish h (r, ends) = (r, record { handles = h; ends = ends })

-- `downcast_arc::<ChannelEnd>()` and `send`. A task that holds a handle keeps the end alive.
abbrev pub send_end : Option ChannelEnd → Message → Handles → Ends → Sent
send_end none message h ends =
    (err SendMessageError.not_a_channel, record { handles = h; ends = ends })
send_end (some end) message h ends = finish h (send end message ends)

abbrev pub send_through : Option KernelObject → Message → Handles → Ends → Sent
send_through none message h ends =
    (err SendMessageError.invalid_channel_handle, record { handles = h; ends = ends })
send_through (some (channel c)) message h ends = send_end (ends c) message h ends
send_through (some other) message h ends =
    (err SendMessageError.not_a_channel, record { handles = h; ends = ends })

abbrev pub send_taken : ℕ → List ℕ → Option (List KernelObject) × Handles → Ends → Sent
send_taken channel_handle bytes (none, h) ends =
    (err SendMessageError.invalid_transferred_handle, record { handles = h; ends = ends })
send_taken channel_handle bytes (some objects, h) ends =
    send_through (get channel_handle h) (record { bytes = bytes; handle_objects = objects }) h ends

-- What userspace has at an address: `validate_read` accepts any slice, so both are given.
module _ (read_bytes read_handles : ℕ → ℕ → List ℕ) where
  unfoldable pub send_message : ℕ → ℕ → ℕ → ℕ → ℕ → Sender → Sent
  unfolding take_handles
  send_message channel_handle byte_address num_bytes handles_address num_handles s =
      let bytes = if num_bytes == 0 then [] else read_bytes byte_address num_bytes in
      let handles = if num_handles == 0 then [] else read_handles handles_address num_handles in
      if ltb channel_max_num_bytes num_bytes
      then (err SendMessageError.too_many_bytes, s)
      else if ltb channel_max_num_handles num_handles
      then (err SendMessageError.too_many_handles, s)
      else if not (ltb channel_handle (2 ^ 32))
      then (err SendMessageError.invalid_channel_handle, s)
      else send_taken channel_handle bytes (take_handles handles s.handles) s.ends

-- `task.handles.add` for each object in turn: the new handles and the table.
unfoldable pub add_handles : List KernelObject → Handles → List ℕ × Handles
unfolding add
add_handles [] h = ([], h)
add_handles (object ∷ objects) h =
    let (handle, h') = add object h in
    let (handles, last) = add_handles objects h' in (handle ∷ handles, last)

-- What `get_message` gives to userspace: what it writes into the two buffers, if it does, and the
-- lengths in the status.
pub record Received : Type 0 where
  pub num_bytes : ℕ
  pub num_handles : ℕ
  pub bytes : Option (List ℕ)
  pub handles : Option (List ℕ)
  pub table : Handles

abbrev pub written_handles : Bool → List KernelObject → Handles → Option (List ℕ) × Handles
written_handles true objects h = let (handles, h') = add_handles objects h in (some handles, h')
written_handles false objects h = (none, h)

module _ (bytes_address bytes_len handles_address handles_len : ℕ) (h : Handles) where
  -- The function that `get_message` passes to `receive`. `validate_write` accepts any slice.
  unfoldable pub accept_message : Message → Result Received (Message × GetMessageError)
  unfolding num_handles
  accept_message message =
      if ltb bytes_len (length message.bytes)
      then err (message, GetMessageError.bytes_buffer_too_small)
      else if ltb handles_len (num_handles message)
      then err (message, GetMessageError.handles_buffer_too_small)
      else let (handles, table) =
          written_handles (ltb 0 handles_len && not (handles_address == 0)) message.handle_objects
            h in
        ok (record {
          num_bytes = length message.bytes;
          num_handles = num_handles message;
          bytes = if ltb 0 bytes_len && not (bytes_address == 0) then some message.bytes else none;
          handles = handles;
          table = table;
        })

module _ (set_bits : SetBits) where
  unfoldable pub status_of : Received → Outcome ℕ
  status_of r = do status ← set_bits 0 16 32 r.num_bytes; set_bits status 32 48 r.num_handles

  -- `get_message`, from the channel end that the handle leads to on: the outcome, and the end.
  abbrev pub report :
      Result Received GetMessageError × ChannelEnd
      → Outcome (Result (ℕ × Received) GetMessageError × ChannelEnd)
  report (ok r, end) = do status ← status_of r; done (ok (status, r), end)
  report (err e, end) = done (err e, end)

  unfoldable pub get_from :
      ℕ
      → ℕ
      → ℕ
      → ℕ
      → Handles
      → ChannelEnd
      → Outcome (Result (ℕ × Received) GetMessageError × ChannelEnd)
  unfolding accept_message receive
  get_from bytes_address bytes_len handles_address handles_len h end =
      report (receive (accept_message bytes_address bytes_len handles_address handles_len h) end)

abbrev pub Got : Type 0
Got = Outcome (Result (ℕ × Received) GetMessageError × Sender)

-- The receiving task's table and the channel end afterwards.
abbrev pub settle : ℕ → Sender → Outcome (Result (ℕ × Received) GetMessageError × ChannelEnd) → Got
settle c s panic = panic
settle c s (done (ok (status, r), end)) =
    done (ok (status, r), record { handles = r.table; ends = put s.ends c (some end) })
settle c s (done (err e, end)) =
    done (err e, record { handles = s.handles; ends = put s.ends c (some end) })

module _ (set_bits : SetBits) (bytes_address bytes_len handles_address handles_len : ℕ)
    (s : Sender) where
  abbrev pub get_end : ℕ → Option ChannelEnd → Got
  get_end c none = done (err GetMessageError.not_a_channel, s)
  get_end c (some end) =
      settle c s
        (get_from set_bits bytes_address bytes_len handles_address handles_len s.handles end)

  abbrev pub get_through : Option KernelObject → Got
  get_through none = done (err GetMessageError.invalid_channel_handle, s)
  get_through (some (channel c)) = get_end c (s.ends c)
  get_through (some other) = done (err GetMessageError.not_a_channel, s)

  unfoldable pub get_message : ℕ → Got
  get_message channel_handle =
      if not (ltb channel_handle (2 ^ 32))
      then done (err GetMessageError.invalid_channel_handle, s)
      else get_through (get channel_handle s.handles)
