-- ===== src/Kernel/Channel/Laws.antt =====
-- Channels are first in, first out, and a message that a receiver does not take stays in place.
use poplar.Prelude.{
  Result, ok, ℕ, zero, suc, ◌≡◌, refl, Option, some, List, [], ◌∷◌, ◌++◌, length, map, arith, ◌∙◌,
  ap,
}
use poplar.Kernel.Channel.{Message, ChannelEnd, Ends, GetMessageError, send, add_message, receive}

-- Messages sent through an end in turn.
unfoldable pub send_all : List Message → ChannelEnd → Ends → Ends
send_all [] end ends = ends
send_all (message ∷ messages) end ends = send_all messages end ((send end message ends).1)

-- Messages received from an end in turn, by a receiver that takes each one.
abbrev pub accept : Message → Result Message (Message × GetMessageError)
accept message = ok message

unfoldable pub receive_all : ℕ → ChannelEnd → List (Result Message GetMessageError) × ChannelEnd
receive_all zero end = ([], end)
receive_all (suc count) end =
    let (result, end') = receive accept end in
    let (results, last) = receive_all count end' in (result ∷ results, last)

append_assoc : (xs ys zs : List Message) → ((xs ++ ys) ++ zs) ≡ (xs ++ (ys ++ zs))
append_assoc [] ys zs = refl
append_assoc (x ∷ xs) ys zs = ap (λ t. x ∷ t) (append_assoc xs ys zs)

append-nil : (xs : List Message) → xs ≡ (xs ++ [])
append-nil [] = refl
append-nil (x ∷ xs) = ap (λ t. x ∷ t) (append-nil xs)

send_one :
    (b : ℕ) (back end : ChannelEnd) (message : Message) (ends : Ends)
    → end.other_end ≡ some b
    → ends b ≡ some back
    → (send end message ends).1 b
      ≡ some (record { messages = back.messages ++ (message ∷ []); other_end = back.other_end })
unfolding add_message
send_one b back end message ends linked there = rw (linked, there) (ground arith)

send_all-queue :
    (messages : List Message) (b : ℕ) (back end : ChannelEnd) (ends : Ends)
    → end.other_end ≡ some b
    → ends b ≡ some back
    → send_all messages end ends b
      ≡ some (record { messages = back.messages ++ messages; other_end = back.other_end })
unfolding send_all
send_all-queue [] b back end ends linked there =
    there
    ∙ ap (λ q. some (record { messages = q; other_end = back.other_end }))
        (append-nil back.messages)
send_all-queue (message ∷ messages) b back end ends linked there =
    let back' : ChannelEnd = record {
      messages = back.messages ++ (message ∷ []);
      other_end = back.other_end;
    } in
    send_all-queue messages b back' end ((send end message ends).1) linked
      (send_one b back end message ends linked there)
    ∙ ap (λ q. some (record { messages = q; other_end = back.other_end }))
        (append_assoc back.messages (message ∷ []) messages)

abbrev pub empty_end : Option ℕ → ChannelEnd
empty_end other = record { messages = []; other_end = other }

receive_all-queue :
    (messages : List Message) (other : Option ℕ)
    → receive_all (length messages) (record { messages = messages; other_end = other })
      ≡ (map ok messages, empty_end other)
unfolding receive_all receive
receive_all-queue [] other = refl
receive_all-queue (message ∷ messages) other = rw (receive_all-queue messages other) refl

-- Messages sent through one end of a channel come out of the other end in the order in which they
-- were sent, after those that were waiting there, and nothing else comes out.
pub send_all-receive_all :
    (messages : List Message) (b : ℕ) (back end : ChannelEnd) (ends : Ends)
    → end.other_end ≡ some b
    → ends b ≡ some back
    → (full : ChannelEnd) × (send_all messages end ends b ≡ some full)
      × (receive_all (length (back.messages ++ messages)) full
          ≡ (map ok (back.messages ++ messages), empty_end back.other_end))
send_all-receive_all messages b back end ends linked there = (
  record { messages = back.messages ++ messages; other_end = back.other_end },
  send_all-queue messages b back end ends linked there,
  receive_all-queue (back.messages ++ messages) back.other_end,
)
