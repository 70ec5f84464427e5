-- ===== src/Kernel/Buddy/RoundTrip.antt =====
-- Memory that `alloc` hands out and `free` takes back.
use poplar.Prelude.{ℕ, ◌^◌, ◌≤◌, ◌≡◌, some, arith, done, subst}
use poplar.Hal.Arch.{Arch}
use poplar.Kernel.Buddy.{BuddyAllocator, max_order, alloc, free}
use poplar.Kernel.Buddy.Cover.{cover, cover_weight}
use poplar.Kernel.Buddy.Invariant.{IsValid}
use poplar.Kernel.Buddy.Free.{cover-IsAdditive}
use poplar.Kernel.Buddy.Alloc.{Allocated, Allocated-IsUnused}
use poplar.Kernel.Buddy.Order.{two_pow_mono, rounded_pow}
use poplar.Kernel.Buddy.Api.{alloc_inversion, free-Frees}

-- A power of two of frames that `alloc` returned can be given back with the same count: `free`
-- succeeds, the allocator is valid again, and the free addresses are those from before.
pub free-alloc :
    (arch : Arch) (k b : ℕ) (a a' : BuddyAllocator)
    → k ≤ max_order
    → IsValid arch a
    → alloc arch (2 ^ k) a ≡ done (some b, a')
    → (a'' : BuddyAllocator) × (free arch b (2 ^ k) a' ≡ done a'')
      × IsValid arch a''
      × ((x : ℕ) → cover a'' x ≡ cover a x)
unfolding cover
free-alloc arch k b a a' h v e =
    let (order, rounded, al) =
      alloc_inversion arch (2 ^ k) b a a' (two_pow_mono k 63 (omega arith)) v e in
    let same : order ≡ k = rounded_pow k order rounded in
    let al' : Allocated arch k b a a' = subst (λ o. Allocated arch o b a a') same al in
    let (a'', r, f) =
      free-Frees arch k b a' h al'.valid al'.block (Allocated-IsUnused arch k b a a' v al') in
    (
      a'',
      r,
      f.valid,
      λ x. omega (
        arith,
        f.sums (cover_weight x) (cover-IsAdditive x),
        al'.sums (cover_weight x) (cover-IsAdditive x),
      ),
    )
