-- ===== src/Syscall/Repr/Examples.antt =====
-- Results of `send_message`, and a handle, encoded and decoded.
use poplar.Prelude.{
  Result, ok, err, ℕ, ◌+◌, ◌-◌, ◌*◌, ◌/◌, ◌%◌, ◌^◌, ◌<◌, ◌≡◌, refl, ap, ltb, if◌then◌else◌, done,
  panic, ◌>>=◌, arith,
}
use poplar.BitField.{GetBits, ReadsBits, SetBits, WritesBits}
use poplar.Kernel.Channel.{SendMessageError}
use poplar.Syscall.Repr.{
  status_from_syscall_repr, status_to_syscall_repr, handle_from_syscall_repr,
  handle_to_syscall_repr, send_message_error,
}
use poplar.Syscall.Repr.Laws.{status_round_trip, handle_round_trip, send_message_error-IsErrorType}

-- The crate's functions in arithmetic.
abbrev get_bits : GetBits
get_bits value low high = value / 2 ^ low % 2 ^ (high - low)

get_bits-ReadsBits : ReadsBits get_bits
get_bits-ReadsBits value low high le = refl

abbrev set_bits : SetBits
set_bits value low high bits =
    if ltb bits (2 ^ (high - low))
    then done (value - value / 2 ^ low % 2 ^ (high - low) * 2 ^ low + bits * 2 ^ low)
    else panic

set_bits-WritesBits : WritesBits set_bits
set_bits-WritesBits value low high bits le fits zeros = ground (arith, fits, zeros)

abbrev disconnected : Result (Unit {0}) SendMessageError
disconnected = err SendMessageError.other_end_disconnected

status_round_trip_example :
    status_from_syscall_repr send_message_error
      (status_to_syscall_repr send_message_error disconnected)
    ≡ done disconnected
status_round_trip_example =
    status_round_trip send_message_error send_message_error-IsErrorType disconnected

abbrev handle_seven : Result ℕ SendMessageError
handle_seven = ok 7

abbrev number_of : Result ℕ SendMessageError → ℕ
number_of (ok handle) = handle
number_of (err e) = 0

fits_seven : (handle : ℕ) → handle_seven ≡ ok handle → handle < 2 ^ 32
fits_seven handle e = let same = ap number_of e in omega (arith, same)

handle_round_trip_example :
    (handle_to_syscall_repr send_message_error set_bits handle_seven
      >>= handle_from_syscall_repr send_message_error get_bits)
    ≡ done handle_seven
handle_round_trip_example =
    handle_round_trip send_message_error send_message_error-IsErrorType get_bits set_bits
      get_bits-ReadsBits set_bits-WritesBits handle_seven fits_seven
