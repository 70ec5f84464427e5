-- ===== src/PageWalk/Impl.antt =====
-- `PageTableImpl` of lib/hal_x86_64/src/paging.rs and lib/hal_riscv/src/paging.rs, with four levels of
-- tables and with three.
use poplar.Prelude.{ℕ, Option, Outcome, done, ◌>>=◌}
use poplar.BitField.{GetBits}
use poplar.Hal.Frame.{FrameSize}
use poplar.Hal.Flags.{Flags}
use poplar.Hal.PageTable.{Paging, after}
use poplar.PageWalk.{
  EntryFormat, Tables, pointer, zero_table, translate_from_p3, translate_from_p4, map_from_p3,
  map_from_p4, unmap_from_p3, unmap_from_p4,
}

pub record PageTableImpl : Type 0 where
  pub frame : ℕ
  pub physical_base : ℕ

module _ (f : EntryFormat) (p : PageTableImpl) where
  -- `p4_mut`, or `top_mut`
  abbrev pub top_table : Outcome ℕ
  top_table = pointer f p.physical_base p.frame

  -- `PageTableImpl::new`
  unfoldable pub new_tables : (ℕ → ℕ → ℕ) → Outcome (ℕ → ℕ → ℕ)
  new_tables memory = top_table >>= λ t. done (zero_table memory t)

  module _ (get_bits : GetBits) where
    unfoldable pub translate_4 : (ℕ → ℕ → ℕ) → ℕ → Outcome (Option ℕ)
    translate_4 memory address =
        top_table >>= λ t. translate_from_p4 f p.physical_base get_bits t memory address

    unfoldable pub translate_3 : (ℕ → ℕ → ℕ) → ℕ → Outcome (Option ℕ)
    translate_3 memory address =
        top_table >>= λ t. translate_from_p3 f p.physical_base get_bits t memory address

    module _ {A : Type 0} (allocate : A → Outcome (ℕ × A)) where
      unfoldable pub map_4 : FrameSize → ℕ → ℕ → Flags → Tables A → Paging (Tables A)
      map_4 s page frame flags tables =
          after top_table
            (λ t. map_from_p4 f p.physical_base get_bits allocate t s page frame flags tables)

      unfoldable pub map_3 : FrameSize → ℕ → ℕ → Flags → Tables A → Paging (Tables A)
      map_3 s page frame flags tables =
          after top_table
            (λ t. map_from_p3 f p.physical_base get_bits allocate t s page frame flags tables)

    unfoldable pub unmap_4 : FrameSize → ℕ → (ℕ → ℕ → ℕ) → Outcome (Option ℕ × (ℕ → ℕ → ℕ))
    unmap_4 s page memory =
        top_table >>= λ t. unmap_from_p4 f p.physical_base get_bits t s page memory

    unfoldable pub unmap_3 : FrameSize → ℕ → (ℕ → ℕ → ℕ) → Outcome (Option ℕ × (ℕ → ℕ → ℕ))
    unmap_3 s page memory =
        top_table >>= λ t. unmap_from_p3 f p.physical_base get_bits t s page memory
