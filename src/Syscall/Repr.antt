-- ===== src/Syscall/Repr.antt =====
-- lib/poplar/src/syscall/result.rs: the result of a system call as one word. The kernel encodes it
-- and the library decodes it.
pub mod Laws
mod Examples
use poplar.Prelude.{
  Result, ok, err, ℕ, ◌+◌, ◌-◌, ◌*◌, ◌/◌, ◌%◌, ◌^◌, ◌≤◌, ◌<◌, ◌≡◌, Option, none, some, List, [],
  ◌∷◌, ◌==◌, if◌then◌else◌, Outcome, done, panic, ◌>>=◌, unwrap,
}
use poplar.BitField.{GetBits, SetBits}
use poplar.Kernel.Channel.{SendMessageError, GetMessageError}

-- What `define_error_type!` gives an error type: `Into<usize>` and `TryFrom<usize>`.
pub record ErrorType (E : Type 0) : Type 0 where
  pub into : E → ℕ
  pub try_from : ℕ → Option E

-- What the functions below need of the numbers an error type lists.
pub record IsErrorType {E : Type 0} (t : ErrorType E) : Type 0 where
  pub positive : (e : E) → 1 ≤ t.into e
  pub in_range : (e : E) → t.into e < 2 ^ 32
  pub listed : (e : E) → t.try_from (t.into e) ≡ some e

module _ {E : Type 0} (t : ErrorType E) where
  -- `Err(E::try_from(status).expect(..))`
  abbrev pub error_from : {A : Type 0} → ℕ → Outcome (Result A E)
  error_from status = unwrap (t.try_from status) >>= λ e. done (err e)

  abbrev pub status_from_syscall_repr : ℕ → Outcome (Result (Unit {0}) E)
  status_from_syscall_repr status = if status == 0 then done (ok tt) else error_from status

  abbrev pub status_to_syscall_repr : Result (Unit {0}) E → ℕ
  status_to_syscall_repr (ok u) = 0
  status_to_syscall_repr (err e) = t.into e

  abbrev pub status_with_payload_to_syscall_repr : Result ℕ E → ℕ
  status_with_payload_to_syscall_repr (ok status) = status
  status_with_payload_to_syscall_repr (err e) = t.into e

  -- A handle is its number, a `u32`.
  abbrev pub handle_from_syscall_repr : GetBits → ℕ → Outcome (Result ℕ E)
  handle_from_syscall_repr get_bits result =
      let status = get_bits result 0 32 in
      if status == 0 then done (ok (get_bits result 32 64 % 2 ^ 32)) else error_from status

  abbrev pub handle_to_syscall_repr : SetBits → Result ℕ E → Outcome ℕ
  handle_to_syscall_repr set_bits (ok handle) = set_bits 0 32 64 handle
  handle_to_syscall_repr set_bits (err e) = set_bits 0 0 32 (t.into e)

abbrev pub send_message_error_into : SendMessageError → ℕ
send_message_error_into SendMessageError.invalid_channel_handle = 1
send_message_error_into SendMessageError.not_a_channel = 2
send_message_error_into SendMessageError.channel_cannot_send = 3
send_message_error_into SendMessageError.invalid_transferred_handle = 4
send_message_error_into SendMessageError.cannot_transfer_handle = 5
send_message_error_into SendMessageError.bytes_address_invalid = 6
send_message_error_into SendMessageError.too_many_bytes = 7
send_message_error_into SendMessageError.handles_address_invalid = 8
send_message_error_into SendMessageError.too_many_handles = 9
send_message_error_into SendMessageError.other_end_disconnected = 10

-- The arms of the macro's `match`: the first one with the number.
abbrev pub first_match {ℓ} : {A : Type ℓ} → List (ℕ × A) → ℕ → Option A
first_match [] status = none
first_match ((number, a) ∷ arms) status =
    if status == number then some a else first_match arms status

abbrev pub send_message_error_try_from : ℕ → Option SendMessageError
send_message_error_try_from = first_match (
    (1, SendMessageError.invalid_channel_handle)
    ∷ (2, SendMessageError.not_a_channel)
    ∷ (3, SendMessageError.channel_cannot_send)
    ∷ (4, SendMessageError.invalid_transferred_handle)
    ∷ (5, SendMessageError.cannot_transfer_handle)
    ∷ (6, SendMessageError.bytes_address_invalid)
    ∷ (7, SendMessageError.too_many_bytes)
    ∷ (8, SendMessageError.handles_address_invalid)
    ∷ (9, SendMessageError.too_many_handles)
    ∷ (10, SendMessageError.other_end_disconnected)
    ∷ [])

abbrev pub send_message_error : ErrorType SendMessageError
send_message_error = record {
  into = send_message_error_into;
  try_from = send_message_error_try_from;
}
