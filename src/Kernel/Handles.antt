-- ===== src/Kernel/Handles.antt =====
-- kernel/src/object/mod.rs and task.rs: kernel objects, and a task's table of handles to them.
pub mod Laws
use poplar.Prelude.{ℕ, suc, ◌+◌, ◌%◌, ◌^◌, Option, none, some, put}

-- An `Arc<dyn KernelObject>`, by the object's type and its identity.
pub data KernelObject : Type 0 where
  address_space task memory_object channel event interrupt : ℕ → KernelObject

pub record Handles : Type 0 where
  pub objects : ℕ → Option KernelObject
  pub next : ℕ

unfoldable pub new : Handles
new = record { objects = λ handle. none; next = 1 }

-- `Handles::add`: the counter is a `u32`, and `fetch_add` wraps around.
unfoldable pub add : KernelObject → Handles → ℕ × Handles
add object h =
    (h.next, record { objects = put h.objects h.next (some object); next = (h.next + 1) % 2 ^ 32 })

unfoldable pub remove : ℕ → Handles → Handles
remove handle h = record { objects = put h.objects handle none; next = h.next }

unfoldable pub get : ℕ → Handles → Option KernelObject
get handle h = h.objects handle
