-- ===== src/Examples/Groups.antt =====
-- The task table, groups and sessions of the three tasks.
use ixland.Prelude.{ℕ, ◌<◌, ◌≡◌, ◌≢◌, refl, some, arith, if◌then◌else◌}
use ixland.Prelude.Int.{pos}
use ixland.Pid.{alloc_pid, pop_pid, pid_init}
use ixland.Fd.Errno.{eperm}
use ixland.Fd.Files.{Ptr, ok, err, files_free}
use ixland.Kernel.{Kernel, put_task}
use ixland.Kernel.Tasks.{task_hash, new_task, task_alloc, task_free}
use ixland.Kernel.Tasks.Table.{IsTask, IsTable}
use ixland.Kernel.Tasks.Upkeep.{task_alloc-IsTable}
use ixland.Kernel.Tasks.Removal.{without, task_free-last}
use ixland.Kernel.Identity.{setpgid}
use ixland.Kernel.Identity.Groups.{may_move, moved, setpgid-may_move}
use ixland.Examples.Family.{
  caller, zombie_child, two_tasks, two_tasks-IsTable, unused_1002, family, family-IsTable, a_heap,
}

task_alloc-IsTable_example :
    (l : Kernel) × (task_alloc (some 3) two_tasks ≡ some (some 3, l))
    × IsTask l 3 (new_task (pos 1002))
    × ((q : Ptr) → q ≢ 3 → l.tasks q ≡ two_tasks.tasks q)
    × IsTable l
unfolding alloc_pid pop_pid pid_init
task_alloc-IsTable_example =
    task_alloc-IsTable two_tasks two_tasks-IsTable 3 1002 refl unused_1002 refl

single : ¬ (1 < zombie_child.refs)
single h = omega (arith, h)

task_free-last_example :
    (i : ℕ) × (task_hash (pos 1002) ≡ some i)
    × (task_free 3 family ≡ some (tt, without family 3 zombie_child i a_heap))
    × IsTable (without family 3 zombie_child i a_heap)
unfolding files_free
task_free-last_example = task_free-last family family-IsTable 3 zombie_child refl a_heap single refl

setpgid-may_move_example : setpgid (pos 1002) (pos 0) family ≡ (
    if may_move caller zombie_child
    then some (ok (pos 0), put_task 3 (some (moved zombie_child (pos 1002))) family)
    else some (err eperm, family))
setpgid-may_move_example =
    setpgid-may_move family 2 3 caller zombie_child (pos 1002) (pos 0) family-IsTable refl refl refl
      refl
