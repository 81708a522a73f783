-- ===== src/Kernel/Exit.antt =====
-- IXLandSystem/kernel/exit.c: the end of a task. `pthread_cond_broadcast` wakes a thread and
-- changes no field: the rounds of Kernel/Wait are what a woken thread does.
pub mod Orphans
use ixland.Prelude.{ℕ, true, Bool, Option, none, some, List, [], ◌∷◌, ◌++◌, ◌==◌, if◌then◌else◌}
use ixland.Prelude.Int.{ℤ, pos}
use ixland.Fd.Files.{Ptr}
use ixland.Kernel.{Task, TaskState, Kernel, Cmd, put_task, on_task, with_current}

-- How the call ends: the whole host process, or the calling thread.
pub data Ended : Type 0 where
  host_exit : ℤ → Ended
  thread_exit : Ended

abbrev pub ended : ℤ → Task → Task
ended status t = record t { exit_status = status; exited = true; state = TaskState.zombie }

-- The walk along the children that rewrites each.
unfoldable pub each_child : (Task → Task) → List Ptr → Kernel → Option Kernel
each_child f [] k = some k
each_child f (q ∷ chain) k = elim (k.tasks q) [
  | none ↦ none
  | some t ↦ each_child f chain (put_task q (some (f t)) k)
]

abbrev pub to_init : Ptr → Task → Task → Task
to_init i init child = record child { parent = some i; ppid = init.pid }

abbrev to_one : Task → Task
to_one child = record child { ppid = pos 1 }

-- `t->...`, undefined at a freed task.
abbrev pub follow : (Task → Option Kernel) → Option Task → Option Kernel
follow body none = none
follow body (some t) = body t

-- The chain goes before init's own children, and the task keeps none.
abbrev pub cleared : Ptr → Kernel → Task → Option Kernel
cleared p l t = some (put_task p (some (record t { children = [] })) l)

abbrev pub spliced : Ptr → List Ptr → Kernel → Task → Kernel
spliced i chain k init = put_task i (some (record init { children = chain ++ init.children })) k

abbrev pub link_chain : Ptr → List Ptr → Ptr → Kernel → Task → Option Kernel
link_chain p chain i k init = let l = spliced i chain k init in follow (cleared p l) (l.tasks p)

abbrev pub link_to : Ptr → List Ptr → Ptr → Option Kernel → Option Kernel
link_to p chain i none = none
link_to p chain i (some k) = follow (link_chain p chain i k) (k.tasks i)

abbrev pub adopt : Ptr → List Ptr → Ptr → Kernel → Task → Option Kernel
adopt p chain i k init = link_to p chain i (each_child (to_init i init) chain k)

unfoldable pub reparent : Ptr → List Ptr → Option Ptr → Kernel → Option Kernel
reparent p [] init k = some k
reparent p (q ∷ chain) none k = each_child to_one (q ∷ chain) k
reparent p (q ∷ chain) (some i) k =
    let adopted = follow (adopt p (q ∷ chain) i k) (k.tasks i) in
    let numbered = each_child to_one (q ∷ chain) k in if i == p then numbered else adopted

-- `if (task->parent)`: the lock and the count of waiters of the parent are read.
abbrev pub notify_parent : Option Ptr → Cmd Ended
notify_parent none k = some (thread_exit, k)
notify_parent (some q) k = on_task (λ t l. some (thread_exit, l)) k (k.tasks q)

abbrev pub notify : Ptr → Option Kernel → Option (Ended × Kernel)
notify p none = none
notify p (some k) = on_task (λ t l. notify_parent t.parent l) k (k.tasks p)

unfoldable pub exit_as : ℤ → Ptr → Task → Cmd Ended
exit_as status p t k =
    notify p (reparent p t.children k.init_task (put_task p (some (ended status t)) k))

-- `ixland_exit`; without a task the host process ends.
unfoldable pub exit : ℤ → Cmd Ended
exit status = with_current (host_exit status) (exit_as status)
