-- ===== src/Wasi/Load.antt =====
-- ixland_wamr.c: ixland_wamr_load_wasm, as what it takes and gives back. What the host and the runtime
-- answer at each step is an argument.
use ixland.Prelude.{Bool, List, [], ◌∷◌, ◌++◌, if◌then◌else◌}
use ixland.Prelude.Int.{ℤ, negsuc}

-- What a step takes: the FILE, the buffer, the runtime, the module, its instance, the environment.
pub data Resource : Type 0 where
  file buffer runtime unit_module instance_of exec_env : Resource

pub data Effect : Type 0 where
  take give : Resource → Effect

-- Whether each step succeeds, and what the program returns.
pub record Steps : Type 0 where
  pub opens : Bool
  pub allocates : Bool
  pub reads : Bool
  pub starts_runtime : Bool
  pub registers : Bool
  pub loads : Bool
  pub instantiates : Bool
  pub makes_env : Bool
  pub has_start : Bool
  pub succeeds : Bool
  pub retval : ℤ

abbrev pub minus_one : ℤ
minus_one = negsuc 0

abbrev pub after : List Effect → ℤ × List Effect → ℤ × List Effect
after es (r, fs) = (r, es ++ fs)

-- The clean-up after the program ran, or could not.
abbrev clean_up : List Effect
clean_up =
    give Resource.exec_env
    ∷ give Resource.instance_of
    ∷ give Resource.unit_module
    ∷ give Resource.runtime
    ∷ []

abbrev pub run : Steps → ℤ × List Effect
run s =
    if s.has_start
    then (if s.succeeds then s.retval else minus_one, clean_up)
    else (minus_one, clean_up)

abbrev with_instance : Steps → ℤ × List Effect
with_instance s = if s.makes_env then after (take Resource.exec_env ∷ []) (run s) else (
  minus_one,
  give Resource.instance_of ∷ give Resource.unit_module ∷ give Resource.runtime ∷ [],
)

abbrev with_module : Steps → ℤ × List Effect
with_module s =
    if s.instantiates
    then after (take Resource.instance_of ∷ []) (with_instance s)
    else (minus_one, give Resource.unit_module ∷ give Resource.runtime ∷ [])

-- The buffer is freed before the test of the module.
abbrev with_natives : Steps → ℤ × List Effect
with_natives s =
    if s.loads
    then after (take Resource.unit_module ∷ give Resource.buffer ∷ []) (with_module s)
    else (minus_one, give Resource.buffer ∷ give Resource.runtime ∷ [])

abbrev with_runtime : Steps → ℤ × List Effect
with_runtime s =
    if s.registers
    then with_natives s
    else (minus_one, give Resource.runtime ∷ give Resource.buffer ∷ [])

abbrev with_bytes : Steps → ℤ × List Effect
with_bytes s =
    if s.starts_runtime
    then after (take Resource.runtime ∷ []) (with_runtime s)
    else (minus_one, give Resource.buffer ∷ [])

abbrev with_buffer : Steps → ℤ × List Effect
with_buffer s =
    if s.reads
    then after (give Resource.file ∷ []) (with_bytes s)
    else (minus_one, give Resource.file ∷ give Resource.buffer ∷ [])

abbrev with_file : Steps → ℤ × List Effect
with_file s =
    if s.allocates
    then after (take Resource.buffer ∷ []) (with_buffer s)
    else (minus_one, give Resource.file ∷ [])

unfoldable pub load_wasm : Steps → ℤ × List Effect
load_wasm s = if s.opens then after (take Resource.file ∷ []) (with_file s) else (minus_one, [])
