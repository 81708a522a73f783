-- ===== src/Wasi/Strings.antt =====
-- ixland_wamr.c: the arguments and the environment of a WebAssembly program, as the bytes and the addresses
-- that the calls store. `base` is the address of the program's buffer.
use ixland.Prelude.{ℕ, ◌+◌, ◌%◌, ◌^◌, Bool, Option, none, some, List, [], ◌∷◌, ◌++◌, length}
use ixland.Prelude.Text.{Bytes}
use ixland.Wasi.{strncpy, Reply, done, checked}

-- The context: the name, and the variables up to `env_count`; none is NULL.
pub record Context : Type 0 where
  pub name : Bytes
  pub env : List (Option Bytes)

-- The one argument's address, and the bytes at `base`.
abbrev pub arguments : ℕ → Option Context → ℕ × Bytes
arguments base none = (base, 0 ∷ [])
arguments base (some c) = (base, strncpy 1023 c.name)

unfoldable pub args_get : Bool → Bool → ℕ → Option Context → Reply (ℕ × Bytes)
args_get inst mapped base ctx = checked inst mapped (done (arguments base ctx))

-- `argc` and the size of the buffer.
abbrev arguments_size : Option Context → ℕ × ℕ
arguments_size none = (1, 1)
arguments_size (some c) = (1, (length c.name + 1) % 2 ^ 32)

unfoldable pub args_sizes_get : Bool → Bool → Option Context → Reply (ℕ × ℕ)
args_sizes_get inst mapped ctx = checked inst mapped (done (arguments_size ctx))

-- The loop over the variables, which ends at the first NULL: their addresses and their bytes.
unfoldable pub addresses : ℕ → ℕ → List (Option Bytes) → List ℕ
addresses base offset [] = []
addresses base offset (none ∷ env) = []
addresses base offset (some s ∷ env) =
    ((base + offset) % 2 ^ 32) ∷ addresses base (offset + length s + 1) env

unfoldable pub strings : List (Option Bytes) → Bytes
strings [] = []
strings (none ∷ env) = []
strings (some s ∷ env) = s ++ (0 ∷ strings env)

abbrev pub environment : ℕ → Option Context → List ℕ × Bytes
environment base none = (base ∷ [], 0 ∷ [])
environment base (some c) = (addresses base 0 c.env, strings c.env)

unfoldable pub environ_get : Bool → Bool → ℕ → Option Context → Reply (List ℕ × Bytes)
environ_get inst mapped base ctx = checked inst mapped (done (environment base ctx))

-- The loop that adds up the sizes in 32 bits.
unfoldable pub add_sizes : List (Option Bytes) → ℕ → ℕ
add_sizes [] total = total
add_sizes (none ∷ env) total = total
add_sizes (some s ∷ env) total = add_sizes env ((total + length s + 1) % 2 ^ 32)

abbrev environment_size : Option Context → ℕ × ℕ
environment_size none = (0, 0)
environment_size (some c) = (length c.env, add_sizes c.env 0)

unfoldable pub environ_sizes_get : Bool → Bool → Option Context → Reply (ℕ × ℕ)
environ_sizes_get inst mapped ctx = checked inst mapped (done (environment_size ctx))
