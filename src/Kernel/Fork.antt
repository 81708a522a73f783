-- ===== src/Kernel/Fork.antt =====
-- IXLandSystem/kernel/fork.c: the creation of a task, up to the start of the thread that runs it.
-- `Host` holds what the host answers: the three allocations and `pthread_create`. The two threads
-- meet through `setjmp` and a condition variable, which are not modelled: `ok` holds the number that
-- the parent returns. After `vfork` the parent is asleep, and `vfork_resume` is the rest of its call.
pub mod Limits
pub mod Lost
use ixland.Prelude.{
  ℕ, zero, suc, ◌+◌, Bool, true, false, Option, none, some, List, [], ◌∷◌, leb, if◌then◌else◌,
  length,
}
use ixland.Prelude.Int.{ℤ, pos, negsuc}
use ixland.Fd.Errno.{Errno, enomem, eagain, esrch}
use ixland.Fd.Files.{Ptr, Files, FileHeap, Outcome, ok, err, files_dup}
use ixland.Fd.Static.{copy_path}
use ixland.Kernel.{
  Task, TaskState, Fs, Sighand, Kernel, Cmd, update, put_task, on_task, with_current, ◌>>=◌,
}
use ixland.Kernel.Tasks.{task_alloc, task_free}

pub record Host : Type 0 where
  pub task_memory : Option Ptr
  pub files_memory : Bool
  pub fd_memory : Bool
  pub thread_starts : Bool

-- `child_count >= limit` on `int`.
unfoldable pub is_over : ℕ → ℤ → Bool
is_over count (pos limit) = leb limit count
is_over count (negsuc n) = true

abbrev pub copy_cwd : Option Fs → Option Fs → Option Fs
copy_cwd none child = child
copy_cwd (some f) none = none
copy_cwd (some f) (some g) = some (record g { cwd = copy_path 4095 f.cwd })

abbrev pub copy_handlers : Option Sighand → Option Sighand → Option Sighand
copy_handlers none child = child
copy_handlers (some s) none = none
copy_handlers (some s) (some c) = some (record c { action = s.action; blocked = s.blocked })

-- The fields of the child up to its working directory.
abbrev pub related : Option Ptr → Task → Task → Task
related vfork_parent parent child = record child {
  ppid = parent.pid;
  pgid = parent.pgid;
  sid = parent.sid;
  vfork_parent = vfork_parent;
  fs = copy_cwd parent.fs child.fs;
}

abbrev pub share_tty : Option Ptr → Option Ptr → Option Ptr
share_tty own none = own
share_tty own (some y) = some y

-- The fields from the signal handlers to the link with the parent.
abbrev pub equipped : Ptr → Task → Option Files → Task → Task
equipped c parent files child = record child {
  files = files;
  sighand = copy_handlers parent.sighand child.sighand;
  tty = share_tty child.tty parent.tty;
  parent = some c;
}

abbrev pub take_tty : Option Ptr → (Ptr → ℕ) → Ptr → ℕ
take_tty none refs = refs
take_tty (some y) refs = update refs y (refs y + 1)

-- The child becomes the first of the parent's children.
abbrev pub linked : Ptr → Ptr → Task → Task → Option Files → FileHeap → Kernel → Kernel
linked c p parent child files h k = record k {
  tasks =
      update (update k.tasks p (some (equipped c parent files child))) c
        (some (record parent { children = p ∷ parent.children }));
  file_heap = h;
  tty_refs = take_tty parent.tty k.tty_refs;
}

abbrev pub failed : Errno → Option (Unit {0} × Kernel) → Option (Outcome ℤ × Kernel)
failed errno none = none
failed errno (some (_, k)) = some (err errno, k)

abbrev pub fail_free : Errno → Ptr → Cmd (Outcome ℤ)
fail_free errno p k = failed errno (task_free p k)

-- The clean-up: the parent's chain becomes what the child's `next_sibling` holds, and the child is
-- freed.
abbrev pub dropped : Errno → Ptr → Ptr → List Ptr → (Task → Task) → Cmd (Outcome ℤ)
dropped errno c p siblings restored k =
    on_task
      (λ u l. fail_free errno p (put_task c (some (restored (record u { children = siblings }))) l))
      k (k.tasks c)

-- `pthread_create`: the parent returns the child's number, or takes the child back.
abbrev pub launch : Bool → Ptr → Ptr → List Ptr → (Task → Task) → Cmd (Outcome ℤ)
launch true c p siblings restored k = on_task (λ child l. some (ok child.pid, l)) k (k.tasks p)
launch false c p siblings restored k = dropped eagain c p siblings restored k

abbrev pub same : Task → Task
same t = t

abbrev suspend : Ptr → Kernel → Kernel
suspend c k = elim (k.tasks c) [
  | none ↦ k
  | some parent ↦ put_task c (some (record parent { state = TaskState.uninterruptible })) k
]

abbrev resumed : Task → Task
resumed t = record t { state = TaskState.running }

-- From the file table on, for a child that was allocated at `p`.
unfoldable pub fork_child : Host → Ptr → Task → Ptr → Task → Cmd (Outcome ℤ)
fork_child host c parent p child k =
    elim (files_dup host.files_memory host.fd_memory parent.files k.file_heap) [
      | none ↦ none
      | some (err e, h) ↦ fail_free enomem p (record k { file_heap = h })
      | some (ok files, h) ↦
          launch host.thread_starts c p parent.children same
            (linked c p parent child (some files) h k)
    ]

-- A parent with no table gives its child none. When the copy fails the child is not linked yet,
-- so that its `next_sibling` is NULL.
unfoldable pub vfork_child : Host → Ptr → Task → Ptr → Task → Cmd (Outcome ℤ)
vfork_child host c parent p child k = elim parent.files [
  | none ↦
      launch host.thread_starts c p parent.children resumed
        (suspend c (linked c p parent child child.files k.file_heap k))
  | some table ↦ elim (files_dup host.files_memory host.fd_memory (some table) k.file_heap) [
    | none ↦ none
    | some (err e, h) ↦ dropped enomem c p [] same (record k { file_heap = h })
    | some (ok files, h) ↦
        launch host.thread_starts c p parent.children resumed
          (suspend c (linked c p parent child (some files) h k))
  ]
]

abbrev pub with_child :
    Ptr → (Task → Task) → (Ptr → Task → Cmd (Outcome ℤ)) → Option Ptr → Cmd (Outcome ℤ)
with_child c relate body none k = some (err enomem, k)
with_child c relate body (some p) k =
    on_task (λ child l. body p (relate child) (put_task p (some (relate child)) l)) k (k.tasks p)

abbrev pub allocate : Host → Ptr → (Task → Task) → (Ptr → Task → Cmd (Outcome ℤ)) → Cmd (Outcome ℤ)
allocate host c relate body = task_alloc host.task_memory >>= with_child c relate body

unfoldable pub fork_as : Host → Ptr → Task → Cmd (Outcome ℤ)
fork_as host c parent k =
    let forked = allocate host c (related none parent) (fork_child host c parent) k in
    if is_over (length parent.children) parent.nproc_limit then some (err eagain, k) else forked

unfoldable pub fork : Host → Cmd (Outcome ℤ)
fork host = with_current (err esrch) (fork_as host)

unfoldable pub vfork_as : Host → Ptr → Task → Cmd (Outcome ℤ)
vfork_as host c parent k =
    let forked = allocate host c (related (some c) parent) (vfork_child host c parent) k in
    if is_over (length parent.children) parent.nproc_limit then some (err eagain, k) else forked

unfoldable pub vfork : Host → Cmd (Outcome ℤ)
vfork host = with_current (err esrch) (vfork_as host)

-- vfork_ctx_t, less the tasks and the host's objects.
pub record VforkCtx : Type 0 where
  pub child_done : Bool
  pub child_execed : Bool

-- The end of the parent's wait; `none` as a result while the child is not done.
unfoldable vfork_resume : VforkCtx → Ptr → Ptr → Cmd (Option ℤ)
vfork_resume ctx c p k =
    let resumes =
      on_task
        (λ parent l.
          on_task (λ child m. some (some child.pid, m)) (put_task c (some (resumed parent)) l)
            (l.tasks p))
        k (k.tasks c) in
    if ctx.child_done then resumes else some (none, k)

-- The two notices act on `active_vfork_ctx` of the thread that calls them.
abbrev vfork_exec_notify : Option VforkCtx → Option VforkCtx
vfork_exec_notify none = none
vfork_exec_notify (some ctx) = some (record ctx { child_done = true; child_execed = true })

abbrev vfork_exit_notify : Option VforkCtx → Option VforkCtx
vfork_exit_notify none = none
vfork_exit_notify (some ctx) = some (record ctx { child_done = true })
