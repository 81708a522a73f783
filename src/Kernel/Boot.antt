-- ===== src/Kernel/Boot.antt =====
-- IXLandSystem/kernel/task.c: the first task, and the calls that make it when there is none.
-- `BootMemory` holds what the allocations answer.
pub mod Once
pub mod Library
pub mod Stopped
use ixland.Prelude.{ℕ, Bool, true, false, Option, none, some, [], ◌∷◌, if◌then◌else◌}
use ixland.Prelude.Int.{ℤ, pos}
use ixland.Pid.{pid_init}
use ixland.Fd.Files.{Ptr, Files, Outcome, ok, err, files_alloc}
use ixland.Kernel.{Task, Fs, Kernel, Cmd, put_task, on_task}
use ixland.Kernel.Tasks.{task_alloc, task_free}
use ixland.Kernel.Masks.{new_sighand}

pub record BootMemory : Type 0 where
  pub task_memory : Option Ptr
  pub files_memory : Bool
  pub fd_memory : Bool
  pub fs_memory : Bool
  pub sighand_memory : Bool

abbrev pub max_fd : ℕ
max_fd = 256

-- vfs.c: `ixland_fs_alloc`. The byte 47 is the slash and 18 is octal 022.
abbrev fs_alloc : Bool → Option Fs
fs_alloc false = none
fs_alloc true = some (record { cwd = 47 ∷ []; root = 47 ∷ []; umask = 18 })

-- `ixland_task_free(init_task); init_task = NULL`.
abbrev forget : Option (Unit {0} × Kernel) → Option Kernel
forget none = none
forget (some (_, k)) = some (record k { init_task = none })

abbrev settle : Bool → Ptr → Task → Kernel → Option Kernel
settle false p t k = forget (task_free p (put_task p (some t) k))
settle true p t k = some (record (put_task p (some (record t { sighand = some new_sighand })) k) {
  init_task = some p;
  current = some p;
})

abbrev give_fs : BootMemory → Option Fs → Ptr → Task → Kernel → Option Kernel
give_fs m none p t k = forget (task_free p (put_task p (some t) k))
give_fs m (some fs) p t k = settle m.sighand_memory p (record t { fs = some fs }) k

abbrev give_files : BootMemory → Outcome Files → Ptr → Task → Kernel → Option Kernel
give_files m (err e) p t k = forget (task_free p (put_task p (some t) k))
give_files m (ok files) p t k =
    give_fs m (fs_alloc m.fs_memory) p (record t { files = some files }) k

abbrev furnish : BootMemory → Ptr → Kernel → Option Task → Option Kernel
furnish m p k none = none
furnish m p k (some t) =
    give_files m (files_alloc m.files_memory m.fd_memory max_fd) p (record t { ppid = t.pid }) k

abbrev boot_task : BootMemory → Option (Option Ptr × Kernel) → Option Kernel
boot_task m none = none
boot_task m (some (none, k)) = some (record k { init_task = none })
boot_task m (some (some p, k)) = furnish m p k (k.tasks p)

-- `ixland_task_init_once`.
unfoldable task_init_once : BootMemory → Kernel → Option Kernel
task_init_once m k = boot_task m (task_alloc m.task_memory (record k { pids = pid_init k.pids }))

abbrev pub completed : Option Kernel → Option Kernel
completed none = none
completed (some k) = some (record k { booted = true })

-- `pthread_once`.
unfoldable run_once : BootMemory → Kernel → Option Kernel
run_once m k = let booted = completed (task_init_once m k) in if k.booted then some k else booted

abbrev pub is_some : Option Ptr → Bool
is_some none = false
is_some (some p) = true

abbrev pub answer : Option Kernel → Option (Bool × Kernel)
answer none = none
answer (some k) = some (is_some k.init_task, k)

-- `ixland_task_init`: true is the result 0.
unfoldable task_init : BootMemory → Cmd Bool
task_init m k = answer (run_once m k)

-- A number of the calling thread's task, or 0 without one.
abbrev pub number_of : (Task → ℤ) → Kernel → Option Ptr → Option (ℤ × Kernel)
number_of field k none = some (pos 0, k)
number_of field k (some c) = on_task (λ t l. some (field t, l)) k (k.tasks c)

abbrev after_init : (Task → ℤ) → Option (Bool × Kernel) → Option (ℤ × Kernel)
after_init field none = none
after_init field (some (false, k)) = some (pos 0, k)
after_init field (some (true, k)) = number_of field k k.current

abbrev or_boot : BootMemory → (Task → ℤ) → Kernel → Option Ptr → Option (ℤ × Kernel)
or_boot m field k none = after_init field (task_init m k)
or_boot m field k (some c) = number_of field k (some c)

unfoldable getpid : BootMemory → Cmd ℤ
getpid m k = or_boot m (λ t. t.pid) k k.current

unfoldable getppid : BootMemory → Cmd ℤ
getppid m k = or_boot m (λ t. t.ppid) k k.current
