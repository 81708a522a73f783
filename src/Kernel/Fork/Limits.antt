-- ===== src/Kernel/Fork/Limits.antt =====
-- fork.c: when a task may have one more child, and what that child is given. The limit is 0 for every task
-- that the program makes, so that all its calls are of the first case.
use ixland.Prelude.{
  ℕ, ◌%◌, ◌≡◌, ◌≢◌, refl, ap, sym, fun_ext, ◌∙◌, ◌⊎◌, inl, inr, Bool-cases, Bool, true, false,
  Option, none, some, List, ◌∷◌, arith, ◌==◌, ==_refl, ==_ne, length,
}
use ixland.Prelude.Int.{ℤ, pos}
use ixland.Pid.{alloc_pid, free_pid}
use ixland.Fd.Errno.{eagain, esrch}
use ixland.Fd.Files.{Ptr, Files, FileHeap, Outcome, ok, err, files_dup, files_free}
use ixland.Kernel.{
  Task, Fs, Sighand, Kernel, update, put_task, on_task, with_current-some, >>=-some,
}
use ixland.Kernel.Tasks.{max_tasks, new_task, task_alloc, unlink, release_tty, task_hash}
use ixland.Kernel.Tasks.Table.{IsTask}
use ixland.Kernel.Tasks.Upkeep.{inserted, task_alloc-inserted}
use ixland.Kernel.Tasks.Removal.{task_free-without}
use ixland.Kernel.Fork.{
  Host, is_over, copy_cwd, copy_handlers, related, equipped, linked, launch, fork_child, with_child,
  share_tty, take_tty, failed, fail_free, allocate, fork_as, fork, vfork_as, vfork, same,
}

module _ (k : Kernel) (c : Ptr) (t : Task) (run : k.current ≡ some c) (e : IsTask k c t) where
  -- A calling task that has at least as many children as its limit allows gets no further one: both
  -- calls fail with EAGAIN and change nothing.
  fork_over_limit :
      (host : Host)
      → is_over (length t.children) t.nproc_limit ≡ true
      → (fork host k ≡ some (err eagain, k)) × (vfork host k ≡ some (err eagain, k))
  unfolding fork fork_as vfork vfork_as
  fork_over_limit host over = (
    with_current-some (err esrch) (fork_as host) k c t run e ∙ rw over refl,
    with_current-some (err esrch) (vfork_as host) k c t run e ∙ rw over refl,
  )

  fork_under_limit :
      (host : Host)
      → is_over (length t.children) t.nproc_limit ≡ false
      → fork host k ≡ allocate host c (related none t) (fork_child host c t) k
  unfolding fork fork_as
  fork_under_limit host under =
      with_current-some (err esrch) (fork_as host) k c t run e ∙ rw under refl

  module _ (p : Ptr) (n : ℕ) (memory fd_memory : Bool) (files : Files) (h : FileHeap)
      (under : is_over (length t.children) t.nproc_limit ≡ false)
      (number : (alloc_pid k.pids).0 ≡ pos n) (fresh : k.tasks p ≡ none)
      (copied : files_dup memory fd_memory t.files k.file_heap ≡ some (ok files, h)) where
    abbrev given : Bool → Host
    given starts = record {
      task_memory = some p;
      files_memory = memory;
      fd_memory = fd_memory;
      thread_starts = starts;
    }

    abbrev child : Task
    child = related none t (new_task (pos n))

    abbrev born : Kernel
    born = put_task p (some child) (inserted k p n)

    abbrev parented : Kernel
    parented = linked c p t child (some files) h born

    apart : p ≢ c
    apart same = cc (fresh, e, ap k.tasks same)

    reaches :
        (starts : Bool)
        → allocate (given starts) c (related none t) (fork_child (given starts) c t) k
          ≡ fork_child (given starts) c t p child born
    reaches starts =
        >>=-some (task_alloc (some p))
          (with_child c (related none t) (fork_child (given starts) c t)) k (inserted k p n)
          (some p) (task_alloc-inserted k p n number)
        ∙ ap
            (on_task
              (λ u l.
                fork_child (given starts) c t p (related none t u)
                  (put_task p (some (related none t u)) l))
              (inserted k p n))
            here
      where
        here : (inserted k p n).tasks p ≡ some (new_task (pos n))
        here = rw (==_refl p) refl

    launches :
        (starts : Bool)
        → fork_child (given starts) c t p child born ≡ launch starts c p t.children same parented
    unfolding fork_child
    launches starts = rw (fork_child, copied) refl

    -- The calling task is below its limit, there is unused memory for a task, the allocator yields
    -- a number, the descriptor table can be copied and the thread starts. Then the parent gets that
    -- number of a new task, which is the first of its children, is in its group and its session,
    -- has the copy of its descriptor table, and has neither a working directory nor signal
    -- handlers, whatever the parent has.
    fork-child :
        (l : Kernel) × (u : Task) × (fork (given true) k ≡ some (ok (pos n), l))
        × IsTask l c (record t { children = p ∷ t.children })
        × IsTask l p u
        × (u.pid ≡ pos n)
        × (u.ppid ≡ t.pid)
        × (u.parent ≡ some c)
        × (u.pgid ≡ t.pgid)
        × (u.sid ≡ t.sid)
        × (u.files ≡ some files)
        × (u.fs ≡ none)
        × (u.sighand ≡ none)
    fork-child = (
      parented,
      equipped c t (some files) child,
      fork_under_limit (given true) under
          ∙ reaches true
          ∙ launches true
          ∙ ap (on_task (λ u l. some (ok u.pid, l)) parented) here,
      rw (==_refl c) refl,
      here,
      refl,
      refl,
      refl,
      refl,
      refl,
      refl,
      no_fs t.fs,
      no_handlers t.sighand,
    )
      where
        here : parented.tasks p ≡ some (equipped c t (some files) child)
        here = rw (==_ne p c apart, ==_refl p) refl

        no_fs : (o : Option Fs) → copy_cwd o none ≡ none
        no_fs none = refl
        no_fs (some s) = refl

        no_handlers : (o : Option Sighand) → copy_handlers o none ≡ none
        no_handlers none = refl
        no_handlers (some s) = refl

    abbrev back : Kernel
    back = put_task c (some t) parented

    -- The fields of the kernel that the failed call has to restore.
    abbrev mended : (Ptr → Option Task) → (ℕ → List Ptr) → (Ptr → ℕ) → Kernel
    mended tasks table tty_refs = record k {
      tasks = tasks;
      table = table;
      tty_refs = tty_refs;
      pids = free_pid (alloc_pid k.pids).1 (pos n);
    }

    tasks_restored : (update back.tasks p none) ≡ k.tasks
    tasks_restored = fun_ext λ q. at q (Bool-cases (q == p)) (Bool-cases (q == c))
      where
        at :
            (q : Ptr)
            → ((q == p) ≡ true) ⊎ ((q == p) ≡ false)
            → ((q == c) ≡ true) ⊎ ((q == c) ≡ false)
            → update back.tasks p none q ≡ k.tasks q
        at q (inl a) b = let here : q ≡ p = ground arith in rw a (sym fresh ∙ ap k.tasks (sym here))
        at q (inr a) (inl b) =
            let here : q ≡ c = ground arith in rw (a, b) (sym e ∙ ap k.tasks (sym here))
        at q (inr a) (inr b) = rw (a, b) refl

    table_restored :
        (update back.table (n % max_tasks) (unlink p (back.table (n % max_tasks)))) ≡ k.table
    table_restored = fun_ext λ i. at i (Bool-cases (i == n % max_tasks))
      where
        at :
            (i : ℕ)
            → ((i == n % max_tasks) ≡ true) ⊎ ((i == n % max_tasks) ≡ false)
            → update back.table (n % max_tasks) (unlink p (back.table (n % max_tasks))) i
              ≡ k.table i
        at i (inl a) =
            let here : i ≡ n % max_tasks = ground arith in
            rw (a, ==_refl (n % max_tasks), ==_refl p) (ap k.table (sym here))
        at i (inr a) = rw a refl

    tty_restored :
        (tty own_tty : Option Ptr) (refs : Ptr → ℕ)
        → own_tty ≡ tty
        → release_tty own_tty (take_tty tty refs) ≡ refs
    tty_restored none own_tty refs o = rw o refl
    tty_restored (some y) own_tty refs o = rw o (fun_ext λ z. at z (Bool-cases (z == y)))
      where
        at :
            (z : Ptr)
            → ((z == y) ≡ true) ⊎ ((z == y) ≡ false)
            → release_tty (some y) (take_tty (some y) refs) z ≡ refs z
        at z (inl a) =
            let here : z ≡ y = ground arith in rw (a, ==_refl y) (omega (arith, ap refs here))
        at z (inr a) = rw a refl

    -- In the same situation, if the thread does not start and freeing the copied table restores the
    -- file objects, the call fails with EAGAIN and all that is left of the new task is its number
    -- in the allocator's list of free numbers.
    fork-no_thread :
        files_free (some files) h ≡ some k.file_heap
        → fork (given false) k
          ≡ some (err eagain, record k { pids = free_pid (alloc_pid k.pids).1 (pos n) })
    unfolding task_hash
    fork-no_thread freed =
        fork_under_limit (given false) under
        ∙ reaches false
        ∙ launches false
        ∙ ap (on_task (λ u l. drops (record u { children = t.children }) l) parented) own
        ∙ freed_child
      where
        drops : Task → Kernel → Option (Outcome ℤ × Kernel)
        drops u l = fail_free eagain p (put_task c (some u) l)

        own : parented.tasks c ≡ some (record t { children = p ∷ t.children })
        own = rw (==_refl c) refl

        here : back.tasks p ≡ some (equipped c t (some files) child)
        here = rw (==_ne p c apart, ==_refl p) refl

        own_tty : (o : Option Ptr) → share_tty none o ≡ o
        own_tty none = refl
        own_tty (some y) = refl

        table : ℕ → List Ptr
        table = update back.table (n % max_tasks) (unlink p (back.table (n % max_tasks)))

        tty_refs : Ptr → ℕ
        tty_refs = release_tty (equipped c t (some files) child).tty back.tty_refs

        same_fields :
            mended (update back.tasks p none) table tty_refs
            ≡ record k { pids = free_pid (alloc_pid k.pids).1 (pos n) }
        same_fields =
            ap (λ f. mended f table tty_refs) tasks_restored
            ∙ ap (λ f. mended k.tasks f tty_refs) table_restored
            ∙ ap (mended k.tasks k.table) (tty_restored t.tty _ k.tty_refs (own_tty t.tty))

        freed_child :
            drops t parented
            ≡ some (err eagain, record k { pids = free_pid (alloc_pid k.pids).1 (pos n) })
        freed_child =
            ap (failed eagain) (
              task_free-without back p (equipped c t (some files) child) (n % max_tasks) k.file_heap
                here refl refl freed)
            ∙ ap (λ l. some (err eagain, l)) same_fields
