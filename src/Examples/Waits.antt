-- ===== src/Examples/Waits.antt =====
-- Waiting for the children of the caller.
use ixland.Prelude.{ℕ, ◌<◌, ◌≡◌, refl, false, some, [], arith}
use ixland.Prelude.Int.{pos, negsuc}
use ixland.Fd.Files.{ok, files_free}
use ixland.Kernel.{Kernel, put_task}
use ixland.Kernel.Tasks.{task_hash}
use ixland.Kernel.Tasks.Table.{IsTable}
use ixland.Kernel.Tasks.Removal.{without}
use ixland.Kernel.Wait.{Options, task_to_status, finished, find_child, waitpid}
use ixland.Kernel.Wait.Reap.{waitpid-reaps}
use ixland.Examples.Family.{linux, caller, zombie_child, family, family-IsTable, a_heap}

abbrev hang : Options
hang = record { nohang = false; untraced = false; wants_continued = false }

single : ¬ (1 < zombie_child.refs)
single h = omega (arith, h)

abbrev reaped : ℕ → Kernel
reaped i =
    without (put_task 2 (some (record caller { children = [] })) family) 3 zombie_child i a_heap

waitpid-reaps_example :
    (i : ℕ) × (task_hash (pos 1002) ≡ some i)
    × (waitpid linux (negsuc 0) hang [] family
        ≡ some (finished (ok (pos 1002)) (some (task_to_status linux zombie_child)), reaped i))
    × IsTable (reaped i)
unfolding find_child files_free
waitpid-reaps_example =
    waitpid-reaps linux family 2 caller (negsuc 0) hang refl refl refl 3 zombie_child refl
      (λ e. omega (arith, e)) [] a_heap family-IsTable refl refl single refl
