-- ===== src/Kernel/Message/Laws.antt =====
-- A message goes from one task to another with its bytes and its objects.
use poplar.Prelude.{
  ok, err, ℕ, ◌+◌, ◌^◌, ◌≤◌, ◌<◌, ◌≡◌, ◌≢◌, refl, false, not, none, some, List, [], ◌∷◌, length,
  map, ltb, ◌==◌, arith, ◌∙◌,
}
use poplar.Kernel.Handles.{KernelObject, Handles, add, remove, get}
use poplar.Kernel.Handles.Laws.{IsValid, add-IsValid}
use poplar.Kernel.Channel.{Message, Ends, SendMessageError}
use poplar.Kernel.Message.{
  take_handles, Sender, Sent, send_message, channel_max_num_bytes, add_handles,
}

-- New handles leave the old ones alone.
add_handles-get :
    (objects : List KernelObject) (h : Handles) (handle : ℕ)
    → IsValid h
    → h.next + length objects < 2 ^ 32
    → handle < h.next
    → get handle ((add_handles objects h).1) ≡ get handle h
unfolding add_handles add
add_handles-get [] h handle v room old = refl
add_handles-get (object ∷ objects) h handle v room old =
    let (v', p, free, finds) = add-IsValid object h v (omega arith) in
    let kept : get handle ((add object h).1) ≡ get handle h =
      let at = finds handle in ground arith in
    add_handles-get objects ((add object h).1) handle v' (omega arith) (omega arith) ∙ kept

-- Each new handle finds its object.
pub add_handles-finds :
    (objects : List KernelObject) (h : Handles)
    → IsValid h
    → h.next + length objects < 2 ^ 32
    → map (λ handle. get handle ((add_handles objects h).1)) ((add_handles objects h).0)
      ≡ map some objects
unfolding add_handles add
add_handles-finds [] h v room = refl
add_handles-finds (object ∷ objects) h v room =
    let (v', p, free, finds) = add-IsValid object h v (omega arith) in
    let h' = (add object h).1 in
    let first : get h.next h' ≡ some object = let at = finds h.next in ground arith in
    let kept = add_handles-get objects h' h.next v' (omega arith) (omega arith) in
    let rest = add_handles-finds objects h' v' (omega arith) in λ i. (kept ∙ first) i ∷ rest i

-- A failure leaves the channels as they were.
abbrev pub FailsCleanly : Ends → Sent → Type 0
FailsCleanly ends (ok u, s) = Unit {0}
FailsCleanly ends (err e, s) = s.ends ≡ ends

take_first :
    (x : ℕ) (object : KernelObject) (handles : List ℕ) (h : Handles)
    → get x h ≡ some object
    → take_handles handles (remove x h) ≡ (none, remove x h)
    → take_handles (x ∷ handles) h ≡ (none, remove x h)
unfolding take_handles
take_first x object handles h there rest = rw (take_handles, there, rest) refl

take_none :
    (y : ℕ) (handles : List ℕ) (h : Handles)
    → get y h ≡ none
    → take_handles (y ∷ handles) h ≡ (none, h)
unfolding take_handles
take_none y handles h gone = rw (take_handles, gone) refl

module _ (read_bytes read_handles : ℕ → ℕ → List ℕ) where
  -- A send that transfers two handles, of which only the first has an object, fails as it should,
  -- and the sending task has lost the first handle and its object.
  pub send_message_loses :
      (channel_handle byte_address num_bytes handles_address x y : ℕ) (object : KernelObject)
      (s : Sender)
      → channel_handle < 2 ^ 32
      → num_bytes ≤ channel_max_num_bytes
      → read_handles handles_address 2 ≡ x ∷ y ∷ []
      → y ≢ x
      → get x s.handles ≡ some object
      → get y s.handles ≡ none
      → (s' : Sender) × (send_message read_bytes read_handles channel_handle byte_address num_bytes
            handles_address 2 s
          ≡ (err SendMessageError.invalid_transferred_handle, s'))
        × (get x s'.handles ≡ none)
  unfolding send_message get remove
  send_message_loses channel_handle byte_address num_bytes handles_address x y object s p q r apart
        there gone =
      let short : ltb channel_max_num_bytes num_bytes ≡ false = ground arith in
      let small : not (ltb channel_handle (2 ^ 32)) ≡ false = ground arith in
      let other : (y == x) ≡ false = ground (arith, apart) in
      let missing : get y (remove x s.handles) ≡ none = ground (arith, other, gone) in
      let taken =
        take_first x object (y ∷ []) s.handles there
          (take_none y [] (remove x s.handles) missing) in
      (
        record { handles = remove x s.handles; ends = s.ends },
        rw (short, small, r, taken) refl,
        ground arith,
      )
