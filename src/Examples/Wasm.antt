-- ===== src/Examples/Wasm.antt =====
-- A directory that is read in two pieces, and WebAssembly programs.
use ixland.Prelude.{
  ◌++◌, ℕ, ◌+◌, ◌<◌, ◌≡◌, refl, true, false, Option, none, some, List, [], ◌∷◌, ◌==◌, length,
  get_elem?, if◌then◌else◌, arith,
}
use ixland.Prelude.Int.{ℤ, pos, negsuc, eqb}
use ixland.Prelude.Text.{Bytes, codes, take, drop}
use ixland.Fd.Files.{ok}
use ixland.Fd.Static.{FdTable, zeroed}
use ixland.Dirents.{NativeType, Native, Host}
use ixland.Wasi.{strncpy, Table, blank, wamr_init, done, real_of, fd_close}
use ixland.Wasi.Opening.{OpenFlags, Asked, first_free, c_string, path_open}
use ixland.Wasi.Strings.{Context, environ_get, environ_sizes_get, strings}
use ixland.Wasi.Load.{Steps, load_wasm, minus_one}
use ixland.Wasi.Files.{fd_close-path_open}
use ixland.Wasi.Environment.{environ_get-environ_sizes_get}
use ixland.Wasi.Released.{replay, nothing, load_wasm-releases}
use ixland.Runtime.{State, Status, init, deinit, load_module, unload, memory_write, memory_read}
use ixland.Runtime
use ixland.Runtime.Balanced.{Reachable, IsSound, Reachable-IsSound}
use ixland.Runtime.Memory.{memory_read-memory_write}

abbrev first_name : Native
first_name = record { ino = 5; name = codes "a"; kind = NativeType.reg; place = pos 11 }

abbrev second_name : Native
second_name = record { ino = 6; name = codes "b"; kind = NativeType.dir; place = pos 12 }

abbrev names_after : Option ℤ → List Native
names_after none = first_name ∷ second_name ∷ []
names_after (some place) = if eqb place (pos 11) then second_name ∷ [] else []

abbrev dir_host : Host
dir_host = record { dup = ok 8; opendir = ok 90; entries = names_after; error = none }

abbrev open_dir : FdTable
open_dir = record {
  entries = λ j. if j == 3 then record zeroed { fd = pos 9; used = true } else zeroed;
  initialized = true;
}

abbrev flags : OpenFlags
flags = record {
  cloexec = 524288;
  creat = 64;
  directory = 65536;
  excl = 128;
  trunc = 512;
  rdonly = 0;
  wronly = 1;
  rdwr = 2;
}

abbrev to_read : Asked
to_read = record {
  creat = false;
  directory = false;
  excl = false;
  trunc = false;
  reads = true;
  writes = false;
}

abbrev untouched : Table
untouched = record { entries = λ j. blank; closed = [] }

abbrev at_start : Table
at_start = wamr_init untouched

fd_close-path_open_example :
    (u v : Table) × (path_open true true flags (λ path f. ok 40) (codes "/etc") 4 to_read at_start
      ≡ (done 3, u))
    × (real_of u (pos 3) ≡ pos 40)
    × (fd_close (λ f. ok 0) (pos 3) u ≡ (done tt, v))
    × (v.closed ≡ pos 40 ∷ at_start.closed)
    × ((j : ℕ)
        → v.entries j ≡ (
            if j == 3
            then record (at_start.entries 3) {
              real_fd = negsuc 0;
              wasi_fd = negsuc 0;
              path = strncpy 1023 (codes "/etc") ++ drop 1023 (at_start.entries 3).path;
            }
            else at_start.entries j))
unfolding wamr_init first_free c_string
fd_close-path_open_example =
    fd_close-path_open flags (λ path f. ok 40) (λ f. ok 0) (codes "/etc") 4 to_read at_start 40 3 0
      refl (omega arith) (omega arith) refl (λ j a b. absurd (omega arith)) refl

abbrev context : Context
context = record { name = codes "prog"; env = some (codes "A=1") ∷ some (codes "B=") ∷ [] }

environ_get-environ_sizes_get_example :
    (at : List ℕ) × (bytes : Bytes) × (k : ℕ) × (environ_get true true 1024 (some context)
      ≡ done (at, bytes))
    × (environ_sizes_get true true (some context) ≡ done (length at, length bytes))
    × (get_elem? at 1 ≡ some (1024 + k))
    × (k < length bytes)
    × (c_string (drop k bytes) ≡ codes "B=")
unfolding strings
environ_get-environ_sizes_get_example =
    environ_get-environ_sizes_get 1024 context 1 (codes "B=")
      ((omega arith, (omega arith, (omega arith, tt))), ((omega arith, (omega arith, tt)), tt))
      (omega arith) refl

abbrev no_start : Steps
no_start = record {
  opens = true;
  allocates = true;
  reads = true;
  starts_runtime = true;
  registers = true;
  loads = true;
  instantiates = true;
  makes_env = true;
  has_start = false;
  succeeds = false;
  retval = pos 0;
}

load_wasm-releases_example :
    (replay (load_wasm no_start).1 nothing ≡ some nothing) × ((load_wasm no_start).0 ≡ minus_one)
load_wasm-releases_example = load_wasm-releases no_start

abbrev idle : State
idle = record {
  initialized = false;
  has_module = false;
  has_instance = false;
  has_env = false;
  trace = [];
}

abbrev no_env : Runtime.Steps
no_env = record { loads = true; instantiates = true; makes_env = false }

Reachable-IsSound_example : IsSound (deinit (load_module no_env (init true idle).1).1)
Reachable-IsSound_example = Reachable-IsSound (deinit (load_module no_env (init true idle).1).1) (
    Reachable.deinit_call (load_module no_env (init true idle).1).1 (
      Reachable.load_call no_env (init true idle).1
        (Reachable.init_call true idle Reachable.begin)))

abbrev running : State
running = record idle { initialized = true; has_module = true; has_instance = true }

memory_read-memory_write_example :
    (after : Bytes) × (memory_write (some (5 ∷ 6 ∷ [])) (1 ∷ 2 ∷ 3 ∷ 4 ∷ []) 1 running
      ≡ some (Status.success, after))
    × (length after ≡ 4)
    × (take 1 after ≡ 1 ∷ [])
    × (drop 3 after ≡ 4 ∷ [])
    × (memory_read true after 1 2 running ≡ some (Status.success, 5 ∷ 6 ∷ []))
memory_read-memory_write_example =
    memory_read-memory_write running (1 ∷ 2 ∷ 3 ∷ 4 ∷ []) (5 ∷ 6 ∷ []) 1 (refl, refl) (omega arith)
      (omega arith)
