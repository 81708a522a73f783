-- ===== src/Registry.antt =====
-- IXLandSystem/runtime/native/registry.c: the commands that run in this process, newest first. A path
-- is kept by its pointer in C; here it is its bytes, which its owner is assumed to leave alone.
pub mod Newest
use ixland.Prelude.{Bool, true, false, Option, none, some, List, [], ◌∷◌, ℕ, if◌then◌else◌}
use ixland.Prelude.Text.{Bytes, same_bytes}

-- The function that runs a command is a pointer.
pub record Command : Type 0 where
  pub path : Bytes
  pub entry : ℕ

unfoldable pub registry_clear : List Command → List Command
registry_clear head = []

-- The result 0 is `true`, -1 is `false`; `memory` is whether malloc succeeds.
unfoldable register : Option Bytes → Option ℕ → Bool → List Command → Bool × List Command
register none entry memory head = (false, head)
register (some path) none memory head = (false, head)
register (some path) (some entry) memory head =
    if memory then (true, record { path = path; entry = entry } ∷ head) else (false, head)

unfoldable pub lookup_in : Bytes → List Command → Option ℕ
lookup_in path [] = none
lookup_in path (c ∷ cs) =
    let rest = lookup_in path cs in if same_bytes c.path path then some c.entry else rest

unfoldable pub lookup : Option Bytes → List Command → Option ℕ
lookup none head = none
lookup (some path) head = lookup_in path head
