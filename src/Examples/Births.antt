-- ===== src/Examples/Births.antt =====
-- The end of a task with a child.
use ixland.Prelude.{◌≡◌, ◌≢◌, refl, true, false, some, [], ◌∷◌, arith, has}
use ixland.Prelude.Int.{pos}
use ixland.Fd.Files.{Ptr}
use ixland.Kernel.{Task, TaskState, Kernel}
use ixland.Kernel.Tasks.Table.{IsTask}
use ixland.Kernel.Exit.{exit, thread_exit}
use ixland.Kernel.Exit.Orphans.{exit-orphans}
use ixland.Kernel.Wait.Walk.{AreLive}
use ixland.Examples.Family.{caller, zombie_child, init_contents, family}

child_lives : AreLive family.tasks (3 ∷ [])
child_lives q h = (zombie_child, ground arith)

exit-orphans_example :
    (l : Kernel) × (exit (pos 5) family ≡ some (thread_exit, l))
    × IsTask l 2 (record caller {
      exit_status = pos 5;
      exited = true;
      state = TaskState.zombie;
      children = [];
    })
    × IsTask l 1 (record init_contents { children = 3 ∷ 2 ∷ [] })
    × ((q : Ptr) (u : Task)
        → has q (3 ∷ []) ≡ true
        → IsTask family q u
        → IsTask l q (record u { parent = some 1; ppid = pos 1000 }))
    × ((q : Ptr) → q ≢ 2 → q ≢ 1 → has q (3 ∷ []) ≡ false → l.tasks q ≡ family.tasks q)
exit-orphans_example =
    exit-orphans family 2 1 caller init_contents (pos 5) refl refl refl refl (λ e. omega (arith, e))
      (refl, tt) child_lives refl refl (λ e. cc) (λ r e. (init_contents, ground arith))
