-- ===== src/Hal/Flags.antt =====
-- lib/hal/src/memory/paging.rs: the permissions of a region of memory.
pub mod Laws
use poplar.Prelude.{Bool, true, false, ◌&&◌, ◌||◌}

pub record Flags : Type 0 where
  pub writable : Bool
  pub executable : Bool
  pub user_accessible : Bool
  pub cached : Bool

-- `impl Default for Flags`
abbrev pub default : Flags
default = record { writable = false; executable = false; user_accessible = false; cached = true }

-- `impl Add for Flags`
abbrev pub add : Flags → Flags → Flags
add a b = record {
  writable = a.writable || b.writable;
  executable = a.executable || b.executable;
  user_accessible = a.user_accessible || b.user_accessible;
  cached = a.cached && b.cached;
}
