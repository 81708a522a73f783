-- ===== src/Examples/Starts.antt =====
-- The library that is stopped and started again.
use ixland.Prelude.{◌≡◌, refl, true, false, Option, none, some}
use ixland.Fd.Files.{files_free}
use ixland.Kernel.Tasks.{task_free, task_destroy, task_hash}
use ixland.Kernel.Boot.{BootMemory}
use ixland.Kernel.Boot.Library.{Library, library_deinit, init}
use ixland.Kernel.Boot.Stopped.{init-after_deinit}
use ixland.Examples.Family.{family}

abbrev memory : BootMemory
memory = record {
  task_memory = some 4;
  files_memory = true;
  fd_memory = true;
  fs_memory = true;
  sighand_memory = true;
}

abbrev running : Library
running = record { initialized = true; kernel = family }

abbrev or_running : Option Library → Library
or_running none = running
or_running (some l) = l

abbrev at_rest : Library
at_rest = or_running (library_deinit running)

init-after_deinit_example : init memory at_rest ≡ some (false, at_rest)
unfolding library_deinit task_free task_destroy task_hash files_free
init-after_deinit_example = init-after_deinit memory running at_rest refl refl refl
