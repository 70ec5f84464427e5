-- ===== src/Hal/Examples.antt =====
-- Addresses, frames, pages and flags at concrete inputs.
use poplar.Prelude.{
  inl, false, true, ◌%◌, ℕ, ◌+◌, ◌*◌, ◌^◌, ◌≤◌, ◌<◌, ◌≡◌, refl, ◌↔◌, some, arith, done, panic, ◌==◌,
  if◌then◌else◌, ◌-◌,
}
use poplar.Hal.Arch.{x86_64, riscv64_sv48, physical_limit}
use poplar.Hal.Usize.{RoundsDown, RoundsUp}
use poplar.Hal.PAddr.{align_down, align_up, checked_add, add, sub}
use poplar.Hal.PAddr.Laws.{
  align_down-RoundsDown, align_up-RoundsUp, align_up-zero, checked_add_iff, sub-add,
}
use poplar.Hal.VAddr
use poplar.Hal.VAddr.Laws.{
  IsCanonical, translated_bits, new-IsCanonical, new_iff, sub-add_canonical,
}
use poplar.Hal.Page
use poplar.Hal.Page.Laws.{step_round_trip_canonical}
use poplar.Hal.Flags.{Flags, default}
use poplar.Hal.Flags
use poplar.Hal.Flags.Laws.{add_semilattice}
use poplar.Hal.Frame.{
  size_4kib, size_2mib, size, frames_needed, forward_checked, backward_checked, steps_between,
}
use poplar.Hal.Frame.Laws.{frames_needed_least, step_round_trip}

align_down-RoundsDown_example :
    (y : ℕ) × (align_down 8200 (2 ^ 12) ≡ done y) × RoundsDown (2 ^ 12) 8200 y
align_down-RoundsDown_example = align_down-RoundsDown 12 8200 (omega arith) (omega arith)

align_up-RoundsUp_example : (y : ℕ) × (align_up 8200 (2 ^ 12) ≡ done y) × RoundsUp (2 ^ 12) 8200 y
align_up-RoundsUp_example = align_up-RoundsUp 12 8200 (omega arith) (omega arith)

align_up-zero_example : align_up 4096 0 ≡ (if 4096 == 0 then panic else done (4096 - 1))
align_up-zero_example = align_up-zero 4096 (omega arith)

checked_add_iff_example :
    (checked_add x86_64 4096 10 ≡ some 4106)
    ↔ ((4106 ≡ 4096 + 10) × (4096 + 10 < physical_limit x86_64))
checked_add_iff_example = checked_add_iff x86_64 4096 10 4106

sub-add_example :
    (add riscv64_sv48 4096 10 ≡ done (4096 + 10)) × (sub riscv64_sv48 (4096 + 10) 10 ≡ done 4096)
sub-add_example = sub-add riscv64_sv48 4096 10 (omega arith)

frames_needed_least_example :
    (9000 ≤ frames_needed size_4kib 9000 * size size_4kib)
    × (frames_needed size_4kib 9000 * size size_4kib < 9000 + size size_4kib)
frames_needed_least_example = frames_needed_least size_4kib 9000

step_round_trip_example :
    (backward_checked x86_64 size_2mib 8388608 3 ≡ some 2097152)
    × (steps_between size_2mib 2097152 8388608 ≡ done (3, some 3))
unfolding forward_checked size checked_add
step_round_trip_example = step_round_trip x86_64 size_2mib 2097152 3 8388608 (omega arith) refl

new-IsCanonical_example :
    IsCanonical x86_64 (VAddr.new x86_64 0x0000800000001000)
    × (VAddr.new x86_64 0x0000800000001000 % 2 ^ translated_bits x86_64
        ≡ 0x0000800000001000 % 2 ^ translated_bits x86_64)
new-IsCanonical_example = new-IsCanonical x86_64 0x0000800000001000 (omega arith)

new_iff_example :
    (VAddr.new x86_64 0x0000800000001000 ≡ 0x0000800000001000)
    ↔ IsCanonical x86_64 0x0000800000001000
new_iff_example = new_iff x86_64 0x0000800000001000 (omega arith)

-- The last page of the lower half.
abbrev last_page : ℕ
last_page = 0x00007ffffffff000

sum_runs : VAddr.add x86_64 last_page 4096 ≡ done 0xffff800000000000
unfolding VAddr.add VAddr.new VAddr.canonicalise
sum_runs = refl

diff_runs : VAddr.sub x86_64 0xffff800000000000 4096 ≡ done last_page
unfolding VAddr.sub VAddr.new VAddr.canonicalise
diff_runs = refl

sub-add_canonical_example : last_page ≡ last_page
sub-add_canonical_example =
    sub-add_canonical x86_64 last_page 4096 0xffff800000000000 last_page (inl (omega arith))
      sum_runs diff_runs

step_round_trip_canonical_example :
    (Page.forward_checked x86_64 size_4kib 4096 3 ≡ some (4096 + 3 * size size_4kib))
    × (Page.backward_checked x86_64 size_4kib (4096 + 3 * size size_4kib) 3 ≡ some 4096)
    × (Page.steps_between size_4kib 4096 (4096 + 3 * size size_4kib) ≡ done (3, some 3))
unfolding size
step_round_trip_canonical_example =
    step_round_trip_canonical x86_64 size_4kib 4096 3 (inl (omega arith)) (inl (omega arith))

abbrev user_code : Flags
user_code = record { writable = false; executable = true; user_accessible = true; cached = true }

abbrev device : Flags
device = record { writable = true; executable = false; user_accessible = false; cached = false }

add_semilattice_example :
    (Flags.add user_code device ≡ Flags.add device user_code)
    × (Flags.add (Flags.add user_code device) default
        ≡ Flags.add user_code (Flags.add device default))
    × (Flags.add user_code user_code ≡ user_code)
    × (Flags.add default user_code ≡ user_code)
add_semilattice_example = add_semilattice user_code device default
