-- ===== src/Kernel/Fork/Lost.antt =====
-- fork.c: the clean-up of vfork when the descriptor table cannot be copied.
use ixland.Prelude.{
  ℕ, ◌%◌, ◌≡◌, ◌≢◌, refl, ap, sym, ◌∙◌, Bool, false, none, some, [], ==_refl, ==_ne, length,
}
use ixland.Prelude.Int.{pos}
use ixland.Pid.{alloc_pid}
use ixland.Fd.Errno.{enomem, esrch}
use ixland.Fd.Files.{Ptr, Files, err, files_alloc, files_dup, files_free}
use ixland.Kernel.{Task, Kernel, put_task, on_task, with_current-some, >>=-some}
use ixland.Kernel.Tasks.{max_tasks, task_hash, new_task, task_alloc}
use ixland.Kernel.Tasks.Table.{IsTask}
use ixland.Kernel.Tasks.Upkeep.{inserted, task_alloc-inserted}
use ixland.Kernel.Tasks.Removal.{without, task_free-without}
use ixland.Kernel.Fork.{
  Host, is_over, related, failed, dropped, vfork_child, with_child, allocate, vfork_as, vfork, same,
  fail_free,
}

module _ (k : Kernel) (c p : Ptr) (t : Task) (table : Files) (n : ℕ) (fd_memory starts : Bool)
    (run : k.current ≡ some c) (e : IsTask k c t) (has_table : t.files ≡ some table)
    (under : is_over (length t.children) t.nproc_limit ≡ false)
    (number : (alloc_pid k.pids).0 ≡ pos n) (fresh : k.tasks p ≡ none) where
  -- The host has memory for the task and none for the copy of the table.
  abbrev tight : Host
  tight = record {
    task_memory = some p;
    files_memory = false;
    fd_memory = fd_memory;
    thread_starts = starts;
  }

  abbrev child : Task
  child = related (some c) t (new_task (pos n))

  abbrev born : Kernel
  born = put_task p (some child) (inserted k p n)

  abbrev robbed : Kernel
  robbed = put_task c (some (record t { children = [] })) born

  apart : p ≢ c
  apart same = cc (fresh, e, ap k.tasks same)

  refused : files_dup false fd_memory t.files k.file_heap ≡ some (err enomem, k.file_heap)
  unfolding files_dup files_alloc
  refused = rw has_table refl

  begins : vfork tight k ≡ allocate tight c (related (some c) t) (vfork_child tight c t) k
  unfolding vfork vfork_as
  begins = with_current-some (err esrch) (vfork_as tight) k c t run e ∙ rw under refl

  reaches :
      allocate tight c (related (some c) t) (vfork_child tight c t) k
      ≡ vfork_child tight c t p child born
  reaches =
      >>=-some (task_alloc (some p)) (with_child c (related (some c) t) (vfork_child tight c t)) k
        (inserted k p n) (some p) (task_alloc-inserted k p n number)
      ∙ ap
          (on_task
            (λ u l.
              vfork_child tight c t p (related (some c) t u)
                (put_task p (some (related (some c) t u)) l))
            (inserted k p n))
          here
    where
      here : (inserted k p n).tasks p ≡ some (new_task (pos n))
      here = rw (==_refl p) refl

  fails : vfork_child tight c t p child born ≡ dropped enomem c p [] same born
  unfolding vfork_child files_dup files_alloc
  fails = rw (vfork_child, has_table) refl

  -- The calling task is below its limit and has a descriptor table, there is unused memory for a
  -- task, the allocator yields a number, and there is no memory for the copy of the table. Then
  -- vfork fails with ENOMEM, the new task is gone, and the calling task is left without any
  -- children, whatever children it had.
  vfork_loses_children :
      (l : Kernel) × (vfork tight k ≡ some (err enomem, l))
      × IsTask l c (record t { children = [] })
      × (l.tasks p ≡ none)
  unfolding task_hash files_free
  vfork_loses_children = (
    without robbed p child (n % max_tasks) k.file_heap,
    begins
        ∙ reaches
        ∙ fails
        ∙ ap
            (on_task
              (λ u l. fail_free enomem p (put_task c (some (same (record u { children = [] }))) l))
              born)
            own
        ∙ ap (failed enomem)
            (task_free-without robbed p child (n % max_tasks) k.file_heap here refl refl refl),
    rw (==_ne c p (λ o. apart (sym o)), ==_refl c) refl,
    rw (==_refl p) refl,
  )
    where
      own : born.tasks c ≡ some t
      own = rw (==_ne c p (λ o. apart (sym o))) e

      here : robbed.tasks p ≡ some child
      here = rw (==_ne p c apart, ==_refl p) refl
