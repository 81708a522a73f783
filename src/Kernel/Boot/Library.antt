-- ===== src/Kernel/Boot/Library.antt =====
-- IXLandSystem/kernel/init.c, and ixland_task_deinit of task.c: the start and the end of the library.
-- ixland_vfs_init, whose result is not used, and ixland_vfs_deinit are not in the repository, and
-- ixland_native_registry_init does nothing. The lock makes a start one step.
use ixland.Prelude.{Bool, false, Option, none, some, if◌then◌else◌}
use ixland.Fd.Files.{Ptr}
use ixland.Kernel.{Kernel}
use ixland.Kernel.Tasks.{task_free}
use ixland.Kernel.Boot.{BootMemory, task_init}

-- `ixland_initialized`, and the kernel.
pub record Library : Type 0 where
  pub initialized : Bool
  pub kernel : Kernel

abbrev pub forget_first : Option (Unit {0} × Kernel) → Option Kernel
forget_first none = none
forget_first (some (u, k)) = some (record k { init_task = none })

abbrev pub deinit_first : Kernel → Option Ptr → Option Kernel
deinit_first k none = some k
deinit_first k (some p) = forget_first (task_free p k)

unfoldable pub task_deinit : Kernel → Option Kernel
task_deinit k = deinit_first k k.init_task

abbrev pub started : Option (Bool × Kernel) → Option Library
started none = none
started (some (b, k)) = some (record { initialized = b; kernel = k })

-- Both tests of the flag are the same in one step.
unfoldable pub library_init : BootMemory → Library → Option Library
library_init m l = if l.initialized then some l else started (task_init m l.kernel)

abbrev pub stopped : Option Kernel → Option Library
stopped none = none
stopped (some k) = some (record { initialized = false; kernel = k })

unfoldable pub library_deinit : Library → Option Library
unfolding task_deinit
library_deinit l = if l.initialized then stopped (task_deinit l.kernel) else some l

-- ixland_init: true is the result 0.
abbrev init_answer : Option Library → Option (Bool × Library)
init_answer none = none
init_answer (some l) = some (l.initialized, l)

unfoldable pub init : BootMemory → Library → Option (Bool × Library)
unfolding library_init
init m l = init_answer (if l.initialized then some l else library_init m l)
