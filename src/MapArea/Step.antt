-- ===== src/MapArea/Step.antt =====
-- One run of the loop of `map_area`: what it chooses, and the pages that it maps.
use native.Mathlib.Nat.{add-mod_right}
use poplar.Prelude.{
  ℕ, zero, suc, ◌+◌, ◌-◌, ◌*◌, ◌/◌, ◌%◌, ◌^◌, ◌≤◌, ◌<◌, ◌≡◌, refl, min, arith, ◌∙◌, ap, true, done,
  ◌==◌,
}
use poplar.Hal.Arch.{Arch, physical_limit}
use poplar.Hal.Usize.{is_power_of_two_pow, round_down}
use poplar.Hal.PAddr
use poplar.Hal.PAddr.Laws.{sub-add}
use poplar.Hal.VAddr
use poplar.Hal.VAddr.Laws.{new_iff}
use poplar.Hal.Frame
use poplar.Hal.Frame.{FrameSize, size, size_4kib, size_2mib, size_1gib}
use poplar.Hal.Page
use poplar.Hal.Page.Laws.{IsCanonical-lt}
use poplar.Hal.Flags.{Flags}
use poplar.Hal.PageTable.{Paging}
use poplar.Hal.PageTable.Laws.{IsInHalf, IsInHalf-IsCanonical, map_all, pages, map_range-pages}
use poplar.Mulch.Math
use poplar.MapArea.{whole_pages, to_boundary, map_bytes}

whole_times : (s : FrameSize) (count a : ℕ) → a % size s ≡ 0 → (a + count * size s) % size s ≡ 0
whole_times s zero a h = let e : a + 0 * size s ≡ a = omega arith in rw e h
whole_times s (suc count) a h =
    let e : a + suc count * size s ≡ a + count * size s + size s = omega arith in
    rw e (add-mod_right (a + count * size s) (size s) ∙ whole_times s count a h)

pub VAddr_add :
    (arch : Arch) (v bytes m : ℕ)
    → IsInHalf arch v bytes
    → m ≤ bytes
    → VAddr.add arch v m ≡ done (v + m)
unfolding VAddr.add
VAddr_add arch v bytes m h le =
    let c = IsInHalf-IsCanonical arch v bytes m h le in
    let fits = IsCanonical-lt arch (v + m) c in ground (arith, (new_iff arch (v + m) fits).1 c)

page_start : (s : FrameSize) (v : ℕ) → v % size s ≡ 0 → Page.starts_with s v ≡ done v
unfolding Page.starts_with
page_start s v h = let e : (v % size s == 0) ≡ true = ground arith in rw e refl

frame_start : (s : FrameSize) (p : ℕ) → p % size s ≡ 0 → Frame.starts_with s p ≡ done p
unfolding Frame.starts_with PAddr.is_aligned
frame_start s p h = let e : (p % size s == 0) ≡ true = ground arith in rw e refl

-- `whole_pages` takes as many large pages as the bytes that are left hold.
pub whole_pages_1gib :
    (left : ℕ)
    → left < 2 ^ 64
    → whole_pages size_1gib left ≡ done (size_1gib, left / 2 ^ 30 * 2 ^ 30)
unfolding whole_pages size
whole_pages_1gib left h = rw (Math.align_down_pow 30 left (omega arith) h) refl

pub whole_pages_2mib :
    (left : ℕ)
    → left < 2 ^ 64
    → whole_pages size_2mib left ≡ done (size_2mib, left / 2 ^ 21 * 2 ^ 21)
unfolding whole_pages size
whole_pages_2mib left h = rw (Math.align_down_pow 21 left (omega arith) h) refl

align_up_2mib :
    (v : ℕ)
    → v + 2 ^ 21 < 2 ^ 64
    → VAddr.align_up v (2 ^ 21) ≡ done ((v + 2 ^ 21 - 1) / 2 ^ 21 * 2 ^ 21)
unfolding VAddr.align_up VAddr.align_down
align_up_2mib v h = ground (arith, is_power_of_two_pow 21, round_down 21 (v + 2 ^ 21 - 1))

-- `to_boundary` goes up to the next boundary, or to the end of the area if that is nearer.
pub to_boundary_lem :
    (arch : Arch) (cursor left : ℕ)
    → IsInHalf arch cursor left
    → 0 < left
    → cursor + left + 2 ^ 21 < 2 ^ 64
    → to_boundary arch cursor left ≡ done (size_4kib, min (2 ^ 21 - cursor % 2 ^ 21) left)
unfolding to_boundary size
to_boundary_lem arch cursor left h pos room =
    let step = VAddr_add arch cursor left 1 h (omega arith) in
    let up = align_up_2mib (cursor + 1) (omega arith) in
    let boundary : (cursor + 1 + 2 ^ 21 - 1) / 2 ^ 21 * 2 ^ 21 - cursor ≡ 2 ^ 21 - cursor % 2 ^ 21 =
      omega arith in
    rw (step, up) (ground (arith, boundary))

module _ {T : Type 0} (arch : Arch) (map : FrameSize → ℕ → ℕ → Flags → T → Paging T)
    (flags : Flags) where
  pub map_bytes-pages :
      (s : FrameSize) (count v p : ℕ) (t : T)
      → v % size s ≡ 0
      → p % size s ≡ 0
      → IsInHalf arch v (count * size s)
      → p + count * size s < physical_limit arch
      → map_bytes arch map flags s v p (count * size s) t ≡ map_all map flags (pages s count v p) t
  unfolding map_bytes
  map_bytes-pages s count v p t av ap h k =
      rw
        (
          page_start s v av,
          VAddr_add arch v (count * size s) (count * size s) h (omega arith),
          page_start s (v + count * size s) (whole_times s count v av),
          frame_start s p ap,
          (sub-add arch p (count * size s) k).0,
          frame_start s (p + count * size s) (whole_times s count p ap),
        )
        (map_range-pages map flags arch s count v p t h k)
