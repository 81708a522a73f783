-- ===== src/Registry/Newest.antt =====
-- registry.c: the newest registration of a path is the one that counts.
use ixland.Prelude.{
  ℕ, ◌≡◌, refl, Bool, true, false, ◌&&◌, Option, none, some, List, [], ◌∷◌, if◌then◌else◌,
}
use ixland.Prelude.Text.{Bytes, same_bytes}
use ixland.Registry.{Command, registry_clear, register, lookup_in, lookup}

-- Registrations in their order, each with whether malloc succeeded.
unfoldable pub register_all : List (Command × Bool) → List Command → List Command
register_all [] head = head
register_all ((c, memory) ∷ cs) head =
    register_all cs (register (some c.path) (some c.entry) memory head).1

-- The last entry of a list of registrations whose path is the given one and which had memory.
unfoldable pub latest : Bytes → List (Command × Bool) → Option ℕ → Option ℕ
latest path [] before = before
latest path ((c, memory) ∷ cs) before =
    latest path cs (if memory && same_bytes c.path path then some c.entry else before)

lookup-register_all :
    (path : Bytes) (cs : List (Command × Bool)) (head : List Command)
    → lookup (some path) (register_all cs head) ≡ latest path cs (lookup (some path) head)
unfolding lookup lookup_in register register_all latest
lookup-register_all path [] head = refl
lookup-register_all path ((c, true) ∷ cs) head =
    lookup-register_all path cs (record { path = c.path; entry = c.entry } ∷ head)
lookup-register_all path ((c, false) ∷ cs) head = lookup-register_all path cs head

-- After `ixland_native_registry_clear` and any registrations, some of which may lack memory,
-- `ixland_native_lookup` of a path gives the entry of the last registration of that path that had
-- memory, and nothing if there is none.
pub lookup-latest :
    (path : Bytes) (cs : List (Command × Bool)) (head : List Command)
    → lookup (some path) (register_all cs (registry_clear head)) ≡ latest path cs none
unfolding lookup lookup_in registry_clear
lookup-latest path cs head = lookup-register_all path cs []
