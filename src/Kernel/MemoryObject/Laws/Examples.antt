-- ===== src/Kernel/MemoryObject/Laws/Examples.antt =====
-- Memory objects of kernel/src/object/memory_object.rs at concrete inputs.
use poplar.Prelude.{◌≡◌, refl, some, done, arith}
use poplar.Hal.Flags.{default}
use poplar.Kernel.MemoryObject.{MemoryObject, new, extend, size}
use poplar.Kernel.MemoryObject.Laws.{IsBacked, locate, extend-IsBacked}

abbrev object : MemoryObject
unfolding new
object = new 7 1 0x200000 0x1000 default

extend-IsBacked_example :
    (object' : MemoryObject) × (extend 0x2000 0x800000 object ≡ done object')
    × IsBacked object'
    × (size object' ≡ 0x3000)
    × (locate object'.inner.backing 16 ≡ some 0x200010)
    × (locate object'.inner.backing 0x1800 ≡ some 0x800800)
unfolding size IsBacked object
extend-IsBacked_example =
    extend-IsBacked object 0x2000 0x800000 16 0x800 refl (omega arith) (omega arith) (omega arith)
      (omega arith)
