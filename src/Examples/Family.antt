-- ===== src/Examples/Family.antt =====
-- Three tasks for the examples: init, its child, which is the caller, and the caller's child, which
-- has exited with the code 7.
use ixland.Prelude.{◌-◌, ◌≢◌, refl, true, none, some, [], ◌∷◌, arith, ◌==◌, if◌then◌else◌}
use ixland.Prelude.Int.{pos}
use ixland.Pid.{PidAllocator}
use ixland.Fd.Files.{Ptr, File, FileHeap, Files}
use ixland.Kernel.{Task, TaskState, Kernel, put_task}
use ixland.Kernel.Tasks.{new_task}
use ixland.Kernel.Tasks.Table.{IsTask, IsTable}
use ixland.Kernel.Tasks.Upkeep.{put_task-IsTable, inserted, inserted-IsTable}
use ixland.Kernel.Delivery.{HostSignals}
use ixland.Kernel.Masks.{new_sighand}

abbrev pub linux : HostSignals
linux = record {
  sigkill = 9;
  sigterm = 15;
  sigint = 2;
  sigstop = 19;
  sigcont = 18;
  last_signal = 64;
}

abbrev some_pids : PidAllocator
some_pids = record { free_stack = λ i. 1004 - i; stack_top = 5; initialized = true }

abbrev a_file : File
a_file = record {
  fd = pos 0;
  real_fd = pos 3;
  flags = 0;
  position = pos 0;
  vfs_file = none;
  refs = 1;
}

abbrev pub a_heap : FileHeap
a_heap p = if p == 70 then some a_file else none

abbrev pub a_table : Files
a_table = record { slots = some 70 ∷ none ∷ [] }

abbrev empty_kernel : Kernel
empty_kernel = record {
  tasks = λ q. none;
  table = λ i. [];
  pids = some_pids;
  file_heap = a_heap;
  tty_refs = λ y. 1;
  current = some 2;
  init_task = some 1;
  booted = true;
}

empty_kernel-IsTable : IsTable empty_kernel
empty_kernel-IsTable = record {
  listed = λ p t e. cc;
  live = λ i p m. cc;
  unique = λ p q t u e f same. cc;
  chains = λ i. tt;
}

abbrev pub init_contents : Task
init_contents = record (new_task (pos 1000)) {
  ppid = pos 1000;
  sighand = some new_sighand;
  children = 2 ∷ [];
}

abbrev pub caller : Task
caller = record (new_task (pos 1001)) {
  ppid = pos 1000;
  pgid = pos 1000;
  sid = pos 1000;
  files = some a_table;
  sighand = some new_sighand;
  tty = some 80;
  parent = some 1;
  children = 3 ∷ [];
  nproc_limit = pos 10;
}

abbrev pub zombie_child : Task
zombie_child = record (new_task (pos 1002)) {
  ppid = pos 1001;
  pgid = pos 1000;
  sid = pos 1000;
  state = TaskState.zombie;
  exit_status = pos 7;
  exited = true;
  sighand = some new_sighand;
  parent = some 2;
}

abbrev one_task : Kernel
one_task = inserted empty_kernel 1 1000

abbrev pub two_tasks : Kernel
two_tasks = inserted one_task 2 1001

abbrev three_tasks : Kernel
three_tasks = inserted two_tasks 3 1002

pub two_tasks-IsTable : IsTable two_tasks
two_tasks-IsTable =
    inserted-IsTable one_task
      (inserted-IsTable empty_kernel empty_kernel-IsTable 1 1000 refl (λ q t e. cc)) 2 1001 refl
      (λ q t e. ground arith)

pub unused_1002 : (q : Ptr) (t : Task) → IsTask two_tasks q t → t.pid ≢ pos 1002
unused_1002 q t e = ground arith

three_tasks-IsTable : IsTable three_tasks
three_tasks-IsTable = inserted-IsTable two_tasks two_tasks-IsTable 3 1002 refl unused_1002

abbrev pub family : Kernel
family =
    put_task 3 (some zombie_child)
      (put_task 2 (some caller) (put_task 1 (some init_contents) three_tasks))

pub family-IsTable : IsTable family
family-IsTable =
    put_task-IsTable (put_task 2 (some caller) (put_task 1 (some init_contents) three_tasks))
      (put_task-IsTable (put_task 1 (some init_contents) three_tasks)
        (put_task-IsTable three_tasks three_tasks-IsTable 1 (new_task (pos 1000)) init_contents refl
          refl (omega arith))
        2 (new_task (pos 1001)) caller refl refl (omega arith))
      3 (new_task (pos 1002)) zombie_child refl refl (omega arith)
