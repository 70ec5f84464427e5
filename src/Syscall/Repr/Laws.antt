-- ===== src/Syscall/Repr/Laws.antt =====
-- lib/poplar/src/syscall/result.rs: a result that is encoded and then decoded.
use poplar.Prelude.{
  Result, ok, err, ℕ, ◌+◌, ◌*◌, ◌^◌, ◌≤◌, ◌<◌, ◌≡◌, refl, ap, some, done, ◌>>=◌, unwrap, arith,
}
use poplar.BitField.{GetBits, ReadsBits, SetBits, WritesBits}
use poplar.Kernel.Channel.{SendMessageError}
use poplar.Syscall.Repr.{
  ErrorType, IsErrorType, error_from, status_from_syscall_repr, status_to_syscall_repr,
  handle_from_syscall_repr, handle_to_syscall_repr, send_message_error,
}

module _ {E : Type 0} (t : ErrorType E) (valid : IsErrorType t) where
  -- The number of an error decodes to that error.
  error_from-into : {A : Type 0} → (e : E) → error_from t {A = A} (t.into e) ≡ done (err e)
  error_from-into e = ap (λ o. unwrap o >>= λ e'. done (err e')) (valid.listed e)

  -- Where the numbers of the error type are not 0, are below 2 ^ 32 and each one is of one error, the
  -- status of a result decodes to that result, an error included, and decoding does not panic.
  pub status_round_trip :
      (r : Result (Unit {0}) E) → status_from_syscall_repr t (status_to_syscall_repr t r) ≡ done r
  status_round_trip (ok tt) = refl
  status_round_trip (err e) =
      let positive = valid.positive e in
      let same = error_from-into {A = Unit {0}} e in ground (arith, same)

  -- Where the numbers of the error type are not 0, are below 2 ^ 32 and each one is of one error,
  -- and bits are read and written as bit_field documents, a result that holds a handle of 32 bits or
  -- an error encodes without a panic and decodes to itself.
  pub handle_round_trip :
      (get_bits : GetBits)
      → (set_bits : SetBits) → ReadsBits get_bits
      → WritesBits set_bits
      → (r : Result ℕ E) → ((handle : ℕ) → r ≡ ok handle → handle < 2 ^ 32)
      → (handle_to_syscall_repr t set_bits r >>= handle_from_syscall_repr t get_bits) ≡ done r
  handle_round_trip get_bits set_bits reads writes (ok handle) small =
      let fits = small handle refl in
      let written = writes 0 32 64 handle (omega arith) fits (omega arith) in
      let low = reads (0 + handle * 2 ^ 32) 0 32 (omega arith) in
      let high = reads (0 + handle * 2 ^ 32) 32 64 (omega arith) in
      ground (arith, written, low, high)
  handle_round_trip get_bits set_bits reads writes (err e) small =
      let positive = valid.positive e in
      let in_range = valid.in_range e in
      let written = writes 0 0 32 (t.into e) (omega arith) in_range (omega arith) in
      let low = reads (0 + t.into e * 2 ^ 0) 0 32 (omega arith) in
      let same = error_from-into {A = ℕ} e in ground (arith, written, low, same)

send_message_error_cases :
    (e : SendMessageError)
    → (1 ≤ send_message_error.into e)
      × (send_message_error.into e < 2 ^ 32)
      × (send_message_error.try_from (send_message_error.into e) ≡ some e)
send_message_error_cases SendMessageError.invalid_channel_handle = (omega arith, omega arith, refl)
send_message_error_cases SendMessageError.not_a_channel = (omega arith, omega arith, refl)
send_message_error_cases SendMessageError.channel_cannot_send = (omega arith, omega arith, refl)
send_message_error_cases SendMessageError.invalid_transferred_handle =
    (omega arith, omega arith, refl)
send_message_error_cases SendMessageError.cannot_transfer_handle = (omega arith, omega arith, refl)
send_message_error_cases SendMessageError.bytes_address_invalid = (omega arith, omega arith, refl)
send_message_error_cases SendMessageError.too_many_bytes = (omega arith, omega arith, refl)
send_message_error_cases SendMessageError.handles_address_invalid = (omega arith, omega arith, refl)
send_message_error_cases SendMessageError.too_many_handles = (omega arith, omega arith, refl)
send_message_error_cases SendMessageError.other_end_disconnected = (omega arith, omega arith, refl)

-- The numbers of the errors of `send_message` are not 0, are below 2 ^ 32, and each one is of one
-- error.
pub send_message_error-IsErrorType : IsErrorType send_message_error
send_message_error-IsErrorType = record {
  positive = λ e. (send_message_error_cases e).0;
  in_range = λ e. (send_message_error_cases e).1;
  listed = λ e. (send_message_error_cases e).2;
}
