-- ===== src/Hal/PageTable/Laws.antt =====
-- What a mapping of an area amounts to: a list of pages and frames that tile it.
use mathlib.Core.Path.{fun_ext}
use native.Mathlib.Nat.{add-mod_right, mul-div_cancel}
use poplar.Prelude.{
  ℕ, zero, suc, ◌+◌, ◌-◌, ◌*◌, ◌/◌, ◌%◌, ◌^◌, ◌≤◌, ◌<◌, ◌≡◌, ◌⊎◌, inl, inr, refl, List, [], ◌∷◌,
  ◌++◌, arith, some, sym, ◌∙◌, ap, subst, ltb, true,
}
use poplar.Hal.Arch.{Arch, physical_limit}
use poplar.Hal.PAddr.Laws.{checked_add_iff}
use poplar.Hal.VAddr.Laws.{half, IsCanonical}
use poplar.Hal.Frame
use poplar.Hal.Frame.{FrameSize, size, size_4kib, size_2mib, size_1gib}
use poplar.Hal.Page
use poplar.Hal.Page.Laws.{step_round_trip_canonical}
use poplar.Hal.Flags.{Flags}
use poplar.Hal.PageTable.{Paging, ok, already_mapped, crash, and_then, map_range_loop, map_range}

-- A page of a size, and the frame that it is mapped to.
pub record Mapping : Type 0 where
  pub page_size : FrameSize
  pub page : ℕ
  pub frame : ℕ

-- The mappings cover `bytes` bytes from the virtual and the physical address, in order and without
-- a gap or an overlap, each one aligned to its size.
abbrev pub Tiles : ℕ → ℕ → List Mapping → ℕ → Type 0
Tiles virtual physical [] bytes = bytes ≡ 0
Tiles virtual physical (m ∷ ms) bytes =
    (m.page ≡ virtual)
    × (m.frame ≡ physical)
    × (virtual % size m.page_size ≡ 0)
    × (physical % size m.page_size ≡ 0)
    × (size m.page_size ≤ bytes)
    × Tiles (virtual + size m.page_size) (physical + size m.page_size) ms (bytes - size m.page_size)

-- An area that lies in one half of the virtual address space.
abbrev pub IsInHalf : Arch → ℕ → ℕ → Type 0
IsInHalf arch virtual bytes =
    (virtual + bytes < half arch) ⊎ ((2 ^ 64 - half arch ≤ virtual) × (virtual + bytes < 2 ^ 64))

module _ {T : Type 0} (map : FrameSize → ℕ → ℕ → Flags → T → Paging T) (flags : Flags) where
  -- The mappings in turn, up to the first that fails.
  unfoldable pub map_all : List Mapping → T → Paging T
  map_all [] t = ok t
  map_all (m ∷ ms) t = and_then (map m.page_size m.page m.frame flags t) (map_all ms)

and_then_assoc :
    {T : Type 0} (m : Paging T) (f g : T → Paging T)
    → and_then (and_then m f) g ≡ and_then m (λ t. and_then (f t) g)
and_then_assoc (ok t) f g = refl
and_then_assoc (already_mapped t) f g = refl
and_then_assoc crash f g = refl

pub map_all-append :
    {T : Type 0} (map : FrameSize → ℕ → ℕ → Flags → T → Paging T) (flags : Flags)
    (ms ns : List Mapping) (t : T)
    → map_all map flags (ms ++ ns) t ≡ and_then (map_all map flags ms t) (map_all map flags ns)
unfolding map_all
map_all-append map flags [] ns t = refl
map_all-append map flags (m ∷ ms) ns t =
    let first = map m.page_size m.page m.frame flags t in
    ap (and_then first) (fun_ext (map_all-append map flags ms ns))
    ∙ sym (and_then_assoc first (map_all map flags ms) (map_all map flags ns))

pub Tiles-append :
    (ms ns : List Mapping) (v p v' p' n k bytes : ℕ)
    → v' ≡ v + n
    → p' ≡ p + n
    → bytes ≡ n + k
    → Tiles v p ms n
    → Tiles v' p' ns k
    → Tiles v p (ms ++ ns) bytes
Tiles-append [] ns v p v' p' n k bytes ev ep eb a b =
    let v-eq : v ≡ v' = omega (arith, a) in
    let p-eq : p ≡ p' = omega (arith, a) in
    let k-eq : bytes ≡ k = omega (arith, a) in rw (v-eq, p-eq, k-eq) b
Tiles-append (m ∷ ms) ns v p v' p' n k bytes ev ep eb (e, f, av, ap, le, rest) b = (
  e,
  f,
  av,
  ap,
  omega arith,
  Tiles-append ms ns (v + size m.page_size) (p + size m.page_size) v' p' (n - size m.page_size) k
      (bytes - size m.page_size) (omega arith) (omega arith) (omega arith) rest b,
)

-- `count` pages of one size.
unfoldable pub pages : FrameSize → ℕ → ℕ → ℕ → List Mapping
pages s zero v p = []
pages s (suc count) v p =
    record { page_size = s; page = v; frame = p } ∷ pages s count (v + size s) (p + size s)

pub size_pos : (s : FrameSize) → 1 ≤ size s
unfolding size
size_pos size_4kib = omega arith
size_pos size_2mib = omega arith
size_pos size_1gib = omega arith

pub pages-Tiles :
    (s : FrameSize) (count v p : ℕ)
    → v % size s ≡ 0
    → p % size s ≡ 0
    → Tiles v p (pages s count v p) (count * size s)
unfolding pages
pages-Tiles s zero v p av ap = omega arith
pages-Tiles s (suc count) v p av ap =
    let left : suc count * size s - size s ≡ count * size s = omega arith in
    (
      refl,
      refl,
      av,
      ap,
      omega arith,
      rw left (
          pages-Tiles s count (v + size s) (p + size s) (add-mod_right v (size s) ∙ av)
            (add-mod_right p (size s) ∙ ap)),
    )

pub IsInHalf-IsCanonical :
    (arch : Arch) (v bytes m : ℕ) → IsInHalf arch v bytes → m ≤ bytes → IsCanonical arch (v + m)
IsInHalf-IsCanonical arch v bytes m (inl h) le = inl (omega arith)
IsInHalf-IsCanonical arch v bytes m (inr (h, k)) le = inr (omega arith, omega arith)

next_page :
    (arch : Arch) (s : FrameSize) (v bytes : ℕ)
    → IsInHalf arch v bytes
    → size s ≤ bytes
    → Page.forward_checked arch s v 1 ≡ some (v + size s)
next_page arch s v bytes h le =
    let one : v + 1 * size s ≡ v + size s = omega arith in
    let zero_on : v + 0 ≡ v = omega arith in
    let here : IsCanonical arch v =
      subst (IsCanonical arch) zero_on (IsInHalf-IsCanonical arch v bytes 0 h (omega arith)) in
    let there : IsCanonical arch (v + 1 * size s) =
      rw one (IsInHalf-IsCanonical arch v bytes (size s) h le) in
    (step_round_trip_canonical arch s v 1 here there).0 ∙ ap some one

next_frame :
    (arch : Arch) (s : FrameSize) (p : ℕ)
    → p + size s < physical_limit arch
    → Frame.forward_checked arch s p 1 ≡ some (p + size s)
unfolding Frame.forward_checked size
next_frame arch size_4kib p h = (checked_add_iff arch p 4096 _).1 (refl, h)
next_frame arch size_2mib p h = (checked_add_iff arch p 2097152 _).1 (refl, h)
next_frame arch size_1gib p h = (checked_add_iff arch p 1073741824 _).1 (refl, h)

module _ {T : Type 0} (map : FrameSize → ℕ → ℕ → Flags → T → Paging T) (flags : Flags) (arch : Arch)
    (s : FrameSize) where
  map_range_loop_next :
      (fuel v stop p frames_end v' p' : ℕ) (t : T)
      → ltb v stop ≡ true
      → ltb p frames_end ≡ true
      → Page.forward_checked arch s v 1 ≡ some v'
      → Frame.forward_checked arch s p 1 ≡ some p'
      → map_range_loop arch map flags (suc fuel) s v stop p frames_end t
        ≡ and_then (map s v p flags t) (map_range_loop arch map flags fuel s v' stop p' frames_end)
  unfolding map_range_loop
  map_range_loop_next fuel v stop p frames_end v' p' t a b c d = rw (a, c, b, d) refl

  map_range_loop-pages :
      (count v p : ℕ) (t : T)
      → IsInHalf arch v (count * size s)
      → p + count * size s < physical_limit arch
      → map_range_loop arch map flags (suc count) s v (v + count * size s) p (p + count * size s) t
        ≡ map_all map flags (pages s count v p) t
  unfolding map_range_loop map_all pages
  map_range_loop-pages zero v p t h k = ground arith
  map_range_loop-pages (suc count) v p t h k =
      let some_left = size_pos s in
      let stop : v + suc count * size s ≡ v + size s + count * size s = omega arith in
      let frames_end : p + suc count * size s ≡ p + size s + count * size s = omega arith in
      let rest : IsInHalf arch (v + size s) (count * size s) = ground arith in
      let next =
        map_range_loop_next (suc count) v (v + suc count * size s) p (p + suc count * size s)
          (v + size s) (p + size s) t (ground arith) (ground arith)
          (next_page arch s v (suc count * size s) h (omega arith))
          (next_frame arch s p (omega arith)) in
      next
      ∙ rw (stop, frames_end)
          (ap (and_then (map s v p flags t)) (
            fun_ext
              (λ t'. map_range_loop-pages count (v + size s) (p + size s) t' rest (omega arith))))

  -- A range of whole pages is mapped one page after the other.
  pub map_range-pages :
      (count v p : ℕ) (t : T)
      → IsInHalf arch v (count * size s)
      → p + count * size s < physical_limit arch
      → map_range arch map flags s v (v + count * size s) p (p + count * size s) t
        ≡ map_all map flags (pages s count v p) t
  unfolding map_range
  map_range-pages count v p t h k =
      let back : v + count * size s - v ≡ count * size s = omega arith in
      let number : count * size s / size s + 1 ≡ suc count =
        omega (arith, mul-div_cancel count (size_pos s)) in
      rw (back, number) (map_range_loop-pages count v p t h k)
