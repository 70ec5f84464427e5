-- ===== src/PageWalk/TestData.antt =====
-- An allocator of frames, the operations on bits in arithmetic, and an empty page table.
use poplar.Prelude.{
  ℕ, ◌+◌, ◌-◌, ◌*◌, ◌/◌, ◌%◌, ◌^◌, ◌≤◌, ◌<◌, ◌≡◌, ◌∙◌, ap, refl, Bool, true, false, not, Outcome,
  done, panic, arith, ltb, ◌==◌, if◌then◌else◌, bit_and, bit_or, inl,
}
use poplar.BitField.{GetBits, ReadsBits}
use poplar.BitFlags.{BitFlags, FollowsBits}
use poplar.Hal.Arch.{Arch, x86_64, riscv64_sv48, riscv64_sv39}
use poplar.Hal.VAddr
use poplar.Hal.VAddr.Laws.{new_iff}
use poplar.Hal.Frame.{size}
use poplar.Hal.PageTable.{Paging, ok, already_mapped, crash}
use poplar.PageWalk.{EntryFormat, Tables, pointer}
use poplar.PageWalk.Impl.{PageTableImpl}
use poplar.PageWalk.Create.{Allocates}

abbrev pub bits : BitFlags
bits = record {
  union = bit_or;
  contains = λ x y. bit_and x y == y;
  intersects = λ x y. not (bit_and x y == 0);
  from_bits_truncate = λ all x. bit_and x all;
}

pub bits-FollowsBits : FollowsBits bits
bits-FollowsBits = record {
  union_lem = λ x y. refl;
  contains_lem = λ x y. refl;
  intersects_lem = λ x y. refl;
  from_bits_truncate_lem = λ all x. refl;
}

abbrev pub get_bits : GetBits
get_bits value low high = value / 2 ^ low % 2 ^ (high - low)

pub get_bits-ReadsBits : ReadsBits get_bits
get_bits-ReadsBits value low high le = refl

-- Frames 2 to 1023, in order; the state is the number of the next one.
abbrev pub allocate : ℕ → Outcome (ℕ × ℕ)
allocate n = if ltb n 1024 then done (n * 4096, n + 1) else panic

abbrev pub Available : ℕ → ℕ → Type 0
Available n c = n * 4096 ≤ c

pub allocate_inv :
    (n a n' : ℕ) → allocate n ≡ done (a, n') → (n < 1024) × (a ≡ n * 4096) × (n' ≡ n + 1)
allocate_inv n a n' e = ground (arith, e)

small_canonical : (arch : Arch) (c : ℕ) → c < 2 ^ 38 → VAddr.new arch c ≡ c
small_canonical x86_64 c h = (new_iff x86_64 c (omega arith)).1 (inl (omega arith))
small_canonical riscv64_sv48 c h = (new_iff riscv64_sv48 c (omega arith)).1 (inl (omega arith))
small_canonical riscv64_sv39 c h = (new_iff riscv64_sv39 c (omega arith)).1 (inl (omega arith))

-- Tables are reached at the addresses of their frames.
pub pointer_lem : (f : EntryFormat) (c : ℕ) → c < 2 ^ 38 → pointer f 0 c ≡ done c
unfolding pointer VAddr.add
pointer_lem f c h = ground (arith, small_canonical f.arch (0 + c))

pub allocate-Allocates : (f : EntryFormat) → Allocates f (2 ^ 30) 0 allocate Available
unfolding size
allocate-Allocates f = record {
  table_of = λ n. n * 4096;
  holds = λ n n' a e. (let (h, at, next) = allocate_inv n a n' e in omega (arith, h, at));
  points = λ n n' a e.
      (let (h, at, next) = allocate_inv n a n' e in
        ap (pointer f 0) at ∙ pointer_lem f (n * 4096) (omega (arith, h)));
  available = λ n n' a e. omega arith;
  taken = λ n n' a e d still.
      (let (h, at, next) = allocate_inv n a n' e in
        (omega (arith, next, still), λ e'. absurd (omega (arith, next, still, e'))));
}

-- The top table is in frame 1.
abbrev pub page_table : PageTableImpl
page_table = record { frame = 4096; physical_base = 0 }

abbrev pub blank : Tables ℕ
blank = record { memory = λ t i. 0; frames = 2 }

abbrev pub state_of : Paging (Tables ℕ) → Tables ℕ
state_of (ok s) = s
state_of (already_mapped s) = s
state_of crash = blank

abbrev pub is_ok : Paging (Tables ℕ) → Bool
is_ok (ok s) = true
is_ok other = false

pub ok_state : (p : Paging (Tables ℕ)) → is_ok p ≡ true → p ≡ ok (state_of p)
ok_state (ok s) h = refl
ok_state (already_mapped s) h = absurd (cc)
ok_state crash h = absurd (cc)
