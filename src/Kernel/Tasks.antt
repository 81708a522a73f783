-- ===== src/Kernel/Tasks.antt =====
-- IXLandSystem/kernel/task.c: the task table and the reference counts of tasks.
pub mod Table
pub mod Upkeep
pub mod Removal
use ixland.Prelude.{
  ℕ, ◌+◌, ◌-◌, ◌%◌, true, false, Option, none, some, List, [], ◌∷◌, ◌==◌, ltb, remove,
  if◌then◌else◌,
}
use ixland.Prelude.Int.{ℤ, pos, negsuc, eqb}
use ixland.Pid.{alloc_pid, free_pid}
use ixland.Fd.Files.{Ptr, Files, files_free}
use ixland.Kernel.{Task, TaskState, Kernel, Cmd, update, put_task}

abbrev pub max_tasks : ℕ
max_tasks = 1024

-- The C remainder of a negative number is negative or 0; `none` is an index before the array.
unfoldable pub task_hash : ℤ → Option ℕ
task_hash (pos n) = some (n % max_tasks)
task_hash (negsuc n) = if (n + 1) % max_tasks == 0 then some 0 else none

-- What `calloc` and the assignments of `ixland_task_alloc` leave in a new task.
abbrev pub new_task : ℤ → Task
new_task pid = record {
  pid = pid;
  ppid = pos 0;
  tgid = pid;
  pgid = pid;
  sid = pid;
  state = TaskState.running;
  exit_status = pos 0;
  exited = false;
  signaled = false;
  termsig = 0;
  is_stopped = false;
  stopsig = 0;
  continued = false;
  files = none;
  fs = none;
  sighand = none;
  tty = none;
  parent = none;
  children = [];
  vfork_parent = none;
  waiters = 0;
  nproc_limit = pos 0;
  refs = 1;
}

-- `memory` is what `calloc` returns.
unfoldable pub task_alloc : Option Ptr → Cmd (Option Ptr)
task_alloc none k = some (none, k)
task_alloc (some p) k =
    let (pid, pids) = alloc_pid k.pids in
    elim (task_hash pid) [
      | none ↦ none
      | some i ↦ some (
        some p,
        record k {
          tasks = update k.tasks p (some (new_task pid));
          table = update k.table i (p ∷ k.table i);
          pids = pids;
        },
      )
    ]

-- `*pp = task->hash_next` at the first place of the chain that holds the task.
abbrev pub unlink : Ptr → List Ptr → List Ptr
unlink = remove

abbrev pub release_tty : Option Ptr → (Ptr → ℕ) → Ptr → ℕ
release_tty none refs = refs
release_tty (some y) refs = update refs y (refs y - 1)

-- The part of `ixland_task_free` after the last reference is gone.
unfoldable pub task_destroy : Ptr → Task → Cmd (Unit {0})
task_destroy p t k = elim (task_hash t.pid) [
  | none ↦ none
  | some i ↦ elim (files_free t.files k.file_heap) [
    | none ↦ none
    | some h ↦ some (
      tt,
      record k {
        tasks = update k.tasks p none;
        table = update k.table i (unlink p (k.table i));
        pids = free_pid k.pids t.pid;
        file_heap = h;
        tty_refs = release_tty t.tty k.tty_refs;
      },
    )
  ]
]

unfoldable pub task_free : Ptr → Cmd (Unit {0})
task_free p k = elim (k.tasks p) [
  | none ↦ none
  | some t ↦
      if ltb 1 t.refs
      then some (tt, put_task p (some (record t { refs = t.refs - 1 })) k)
      else task_destroy p t k
]

-- The walk along a chain: the first task with the number, or NULL.
unfoldable pub find_pid : (Ptr → Option Task) → ℤ → List Ptr → Option (Option Ptr)
find_pid tasks pid [] = some none
find_pid tasks pid (p ∷ chain) = elim (tasks p) [
  | none ↦ none
  | some t ↦ if eqb t.pid pid then some (some p) else find_pid tasks pid chain
]

-- `atomic_fetch_add(&task->refs, 1)`.
abbrev pub retain : Ptr → Cmd (Unit {0})
retain p k = elim (k.tasks p) [
  | none ↦ none
  | some t ↦ some (tt, put_task p (some (record t { refs = t.refs + 1 })) k)
]

abbrev pub retained : Option Ptr → Cmd (Option Ptr)
retained none k = some (none, k)
retained (some p) k = elim (retain p k) [ none ↦ none | some (_, k') ↦ some (some p, k') ]

unfoldable pub task_lookup : ℤ → Cmd (Option Ptr)
task_lookup pid k = elim (task_hash pid) [
  | none ↦ none
  | some i ↦ elim (find_pid k.tasks pid (k.table i)) [ none ↦ none | some found ↦ retained found k ]
]
