-- ===== src/Memory.antt =====
-- src/frontends/systemverilog/utils/memory.h, `unique_resource`: a holder of one resource. A
-- resource is a handle, and its deleter adds the handle to a log.
mod Tests
pub mod Ownership
use synlig.Common.{ℕ, Bool, true, false, List, [], ◌∷◌, Option, some, none, if◌then◌else◌}

pub record UniqueResource : Type 0 where
  pub resource : ℕ
  pub initialized : Bool

-- `unique_resource()`.
abbrev pub empty_resource : UniqueResource
empty_resource = record { resource = 0; initialized = false }

-- `unique_resource(other)`, of a resource.
abbrev pub from_resource : ℕ → UniqueResource
from_resource r = record { resource = r; initialized = true }

-- The move constructor: the new holder, and what is left of the other one.
unfoldable pub move_construct : UniqueResource → UniqueResource × UniqueResource
move_construct other = (
  record { resource = other.resource; initialized = other.initialized },
  record other { initialized = false },
)

-- The move assignment. `u` is the holder that is assigned to, and its resource is not deleted.
unfoldable pub move_assign : UniqueResource → UniqueResource → UniqueResource × UniqueResource
move_assign u other = (
  record { resource = other.resource; initialized = other.initialized },
  record other { initialized = false },
)

-- The destructor.
unfoldable pub destroy : UniqueResource → List ℕ → List ℕ
destroy u deleted = if u.initialized then u.resource ∷ deleted else deleted

-- `get()`, `operator*` and `operator->`; `none` is a failed assertion.
unfoldable pub get : UniqueResource → Option ℕ
get u = if u.initialized then some u.resource else none

unfoldable pub release : UniqueResource → ℕ × UniqueResource
release u = (u.resource, record u { initialized = false })

unfoldable pub reset : UniqueResource → List ℕ → UniqueResource × List ℕ
reset u deleted =
    if u.initialized then (record u { initialized = false }, u.resource ∷ deleted) else (u, deleted)

unfoldable pub reset_with : UniqueResource → ℕ → List ℕ → UniqueResource × List ℕ
reset_with u other deleted = (
  record { resource = other; initialized = true },
  if u.initialized then u.resource ∷ deleted else deleted,
)
