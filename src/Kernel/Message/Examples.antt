-- ===== src/Kernel/Message/Examples.antt =====
-- A task that sends a message of two bytes and one object to another task.
use poplar.Prelude.{
  ok, err, ◌*◌, ◌+◌, ◌^◌, ltb, panic, ◌-◌, ◌/◌, ◌%◌, ℕ, ◌≤◌, ◌≡◌, refl, none, some, List, [], ◌∷◌,
  ◌++◌, length, map, put, ◌==◌, if◌then◌else◌, arith, done,
}
use poplar.BitField.{SetBits}
use poplar.Kernel.Handles.{channel, event, Handles, add, get}
use poplar.Kernel.Handles.Laws.{IsValid, add-IsValid}
use poplar.Kernel.Channel.{Message, ChannelEnd, Ends, SendMessageError}
use poplar.Kernel.Channel.Laws.{send_all, receive_all, send_all-receive_all, empty_end}
use poplar.Kernel.Message.{Sender, send_message}
use poplar.Kernel.Message.Laws.{send_message_loses}

-- Channel ends 0 and 1 are the two ends of a channel.
abbrev ends : Ends
ends = λ x.
    if x == 0
    then some (record { messages = []; other_end = some 1 })
    else if x == 1
    then some (record { messages = []; other_end = some 0 })
    else none

-- Handle 1 is the channel's first end, and handle 2 an event.
abbrev table : Handles
table = record {
  objects = λ x. if x == 1 then some (channel 0) else if x == 2 then some (event 9) else none;
  next = 3;
}

table-IsValid : IsValid table
unfolding get
table-IsValid = record {
  positive = omega arith;
  in_range = omega arith;
  unused = λ handle le. ground arith;
  no_zero = refl;
}

add-IsValid_example :
    IsValid ((add (event 4) table).1)
    × (1 ≤ (add (event 4) table).0)
    × (get (add (event 4) table).0 table ≡ none)
    × ((handle : ℕ)
        → get handle (add (event 4) table).1
          ≡ (if handle == (add (event 4) table).0 then some (event 4) else get handle table))
add-IsValid_example = add-IsValid (event 4) table table-IsValid (omega arith)

abbrev end_0 : ChannelEnd
end_0 = record { messages = []; other_end = some 1 }

abbrev end_1 : ChannelEnd
end_1 = record { messages = []; other_end = some 0 }

abbrev hello : Message
hello = record { bytes = 104 ∷ 105 ∷ []; handle_objects = [] }

abbrev bye : Message
bye = record { bytes = 98 ∷ []; handle_objects = [] }

send_all-receive_all_example :
    (full : ChannelEnd) × (send_all (hello ∷ bye ∷ []) end_0 ends 1 ≡ some full)
    × (receive_all (length (end_1.messages ++ (hello ∷ bye ∷ []))) full
        ≡ (map ok (end_1.messages ++ (hello ∷ bye ∷ [])), empty_end (some 0)))
send_all-receive_all_example = send_all-receive_all (hello ∷ bye ∷ []) 1 end_1 end_0 ends refl refl

-- What the sending task has in memory: bytes at any address, and handle 2 or handles 2 and 7.
abbrev read_bytes : ℕ → ℕ → List ℕ
read_bytes address count = 104 ∷ 105 ∷ []

abbrev read_handles : ℕ → ℕ → List ℕ
read_handles address count = if count == 1 then 2 ∷ [] else 2 ∷ 7 ∷ []

abbrev sender : Sender
sender = record { handles = table; ends = ends }

find_event : get 2 table ≡ some (event 9)
unfolding get
find_event = refl

find_seven : get 7 table ≡ none
unfolding get
find_seven = refl

send_message_loses_example :
    (s' : Sender) × (send_message read_bytes read_handles 1 4096 2 8192 2 sender
      ≡ (err SendMessageError.invalid_transferred_handle, s'))
    × (get 2 s'.handles ≡ none)
send_message_loses_example =
    send_message_loses read_bytes read_handles 1 4096 2 8192 2 7 (event 9) sender (omega arith)
      (omega arith) refl (λ e. absurd (omega (arith, e))) find_event find_seven

abbrev with_event : Message
with_event = record { bytes = 104 ∷ 105 ∷ []; handle_objects = event 9 ∷ [] }

abbrev full_ends : Ends
full_ends = put ends 0 (some (record { messages = with_event ∷ []; other_end = some 1 }))

abbrev receiver : Sender
receiver = record { handles = table; ends = full_ends }

-- `set_bits` in arithmetic.
abbrev set_bits : SetBits
set_bits value low high bits =
    if ltb bits (2 ^ (high - low))
    then done (value - value / 2 ^ low % 2 ^ (high - low) * 2 ^ low + bits * 2 ^ low)
    else panic
