-- ===== src/Kernel/Message/Transfer.antt =====
-- A message that is sent and received arrives with its bytes and its objects.
use poplar.Prelude.{
  ok, ℕ, ◌+◌, ◌*◌, ◌^◌, ◌≤◌, ◌<◌, ◌≡◌, refl, false, not, some, List, [], length, map, put, ltb,
  ◌==◌, if◌then◌else◌, arith,
}
use poplar.Kernel.Handles.{KernelObject, channel, Handles, get}
use poplar.Kernel.Channel.{Message, ChannelEnd, add_message}
use poplar.Kernel.Message.{
  take_handles, Sender, send_message, channel_max_num_bytes, channel_max_num_handles, Received,
}

pub send_message_arrives :
    (read_bytes read_handles : ℕ → ℕ → List ℕ)
    (channel_handle byte_address num_bytes handles_address count c b : ℕ)
    (objects : List KernelObject) (h : Handles) (end back : ChannelEnd) (s : Sender)
    → channel_handle < 2 ^ 32
    → num_bytes ≤ channel_max_num_bytes
    → count ≤ channel_max_num_handles
    → take_handles (if count == 0 then [] else read_handles handles_address count) s.handles
      ≡ (some objects, h)
    → get channel_handle h ≡ some (channel c)
    → s.ends c ≡ some end
    → end.other_end ≡ some b
    → s.ends b ≡ some back
    → send_message read_bytes read_handles channel_handle byte_address num_bytes handles_address
        count s
      ≡ (
        ok tt,
        record {
          handles = h;
          ends = put s.ends b (
              some (
                add_message back (record {
                  bytes = if num_bytes == 0 then [] else read_bytes byte_address num_bytes;
                  handle_objects = objects;
                })));
        },
      )
unfolding send_message
send_message_arrives read_bytes read_handles channel_handle byte_address num_bytes handles_address
      count c b objects h end back s p q r taken found there linked other =
    let a : ltb channel_max_num_bytes num_bytes ≡ false = ground arith in
    let m : ltb channel_max_num_handles count ≡ false = ground arith in
    let i : not (ltb channel_handle (2 ^ 32)) ≡ false = ground arith in
    rw (a, m, i, taken, found, there, linked, other) refl

-- What a message turns into for the task that receives it.
pub record IsReceived (message : Message) (status : ℕ) (r : Received) : Type 0 where
  pub whole : r.bytes ≡ some message.bytes
  pub handles :
      (hs : List ℕ) × (r.handles ≡ some hs)
      × (map (λ handle. get handle r.table) hs ≡ map some message.handle_objects)
  pub lengths : status ≡ length message.bytes * 2 ^ 16 + length message.handle_objects * 2 ^ 32
