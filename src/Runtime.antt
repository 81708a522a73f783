-- ===== src/Runtime.antt =====
-- IXLandWasm/ixland-wasm-engine/wamr/ixland_wamr_simple.c: the one WebAssembly program of the process. What
-- the runtime answers is an argument. `trace` has what was taken from the runtime and given back, in order.
-- The texts of the last error are left out.
pub mod Balanced
pub mod Memory
use ixland.Prelude.{
  ℕ, zero, suc, ◌+◌, ◌*◌, Bool, true, false, not, ◌&&◌, ◌||◌, Option, none, some, List, [], ◌∷◌,
  ◌++◌, ◌==◌, ltb, leb, if◌then◌else◌, length,
}
use ixland.Prelude.Text.{Bytes, take, drop}
use ixland.Wasi.Load.{Resource, Effect}

-- `g_wamr_state`; a flag says that a pointer is not NULL.
pub record State : Type 0 where
  pub initialized : Bool
  pub has_module : Bool
  pub has_instance : Bool
  pub has_env : Bool
  pub trace : List Effect

-- A call's result: 0, or -1.
pub data Status : Type 0 where
  success failure : Status

abbrev log : List Effect → State → State
log es s = record s { trace = s.trace ++ es }

unfoldable pub init : Bool → State → Status × State
init starts s =
    if s.initialized
    then (Status.success, s)
    else if starts
    then (Status.success, log (Effect.take Resource.runtime ∷ []) (record s { initialized = true }))
    else (Status.failure, s)

abbrev pub give_if : Bool → Resource → List Effect
give_if true r = Effect.give r ∷ []
give_if false r = []

-- ixland_wamr_unload_module, which the other calls repeat.
unfoldable pub unload : State → State
unload s =
    log
      (give_if s.has_env Resource.exec_env
        ++ (give_if s.has_instance Resource.instance_of
            ++ give_if s.has_module Resource.unit_module))
      (record s { has_env = false; has_instance = false; has_module = false })

unfoldable pub deinit : State → State
unfolding unload
deinit s =
    if s.initialized
    then log (Effect.give Resource.runtime ∷ []) (record (unload s) { initialized = false })
    else s

-- Whether the runtime loads the module, instantiates it and makes the environment.
pub record Steps : Type 0 where
  pub loads : Bool
  pub instantiates : Bool
  pub makes_env : Bool

-- With nothing loaded.
unfoldable load_fresh : Steps → State → Status × State
load_fresh a s =
    if not a.loads
    then (Status.failure, s)
    else if not a.instantiates
    then (
      Status.failure,
      log (Effect.take Resource.unit_module ∷ Effect.give Resource.unit_module ∷ []) s,
    )
    else if not a.makes_env
    then (
      Status.failure,
      log
          (Effect.take Resource.unit_module
            ∷ Effect.take Resource.instance_of
            ∷ Effect.give Resource.instance_of
            ∷ Effect.give Resource.unit_module
            ∷ [])
          s,
    )
    else (
      Status.success,
      log
          (Effect.take Resource.unit_module
            ∷ Effect.take Resource.instance_of
            ∷ Effect.take Resource.exec_env
            ∷ [])
          (record s { has_module = true; has_instance = true; has_env = true }),
    )

unfoldable pub load_module : Steps → State → Status × State
unfolding load_fresh unload
load_module a s = if s.initialized then load_fresh a (unload s) else (Status.failure, s)

-- Whether the function is found and its call succeeds.
unfoldable call_function : Bool → Bool → State → Status
call_function found succeeds s =
    if not s.initialized || not s.has_instance || not s.has_env
    then Status.failure
    else if found && succeeds
    then Status.success
    else Status.failure

unfoldable function_exists : Bool → State → Bool
function_exists found s = if not s.initialized || not s.has_instance then false else found

abbrev byte_at : Bytes → ℕ → ℕ
byte_at [] i = 0
byte_at (b ∷ bs) zero = b
byte_at (b ∷ bs) (suc i) = byte_at bs i

-- none is NULL; the size is the number of the bytes.
unfoldable validate_wasm : Option Bytes → Bool
validate_wasm none = false
validate_wasm (some bytes) =
    if length bytes == 0
    then false
    else if ltb (length bytes) 4
    then false
    else byte_at bytes 0 == 0x00
      && byte_at bytes 1 == 0x61
      && byte_at bytes 2 == 0x73
      && byte_at bytes 3 == 0x6d

-- The runtime finds the address of an offset inside its memory; the copy that follows does not look at the
-- end. none: bytes behind the memory are read or written.
unfoldable pub memory_read : Bool → Bytes → ℕ → ℕ → State → Option (Status × Bytes)
memory_read buffer memory offset len s =
    if not s.initialized || not s.has_instance || not buffer
    then some (Status.failure, [])
    else if not (ltb offset (length memory))
    then some (Status.failure, [])
    else if leb (offset + len) (length memory)
    then some (Status.success, take len (drop offset memory))
    else none

-- The bytes of `buf` are `len`; the memory afterwards.
unfoldable pub memory_write : Option Bytes → Bytes → ℕ → State → Option (Status × Bytes)
memory_write none memory offset s = some (Status.failure, memory)
memory_write (some buf) memory offset s =
    if not s.initialized || not s.has_instance
    then some (Status.failure, memory)
    else if not (ltb offset (length memory))
    then some (Status.failure, memory)
    else if leb (offset + length buf) (length memory)
    then some (Status.success, take offset memory ++ (buf ++ drop (offset + length buf) memory))
    else none

unfoldable get_memory_size : State → ℕ
get_memory_size s = if s.has_instance then 64 * 1024 else 0
