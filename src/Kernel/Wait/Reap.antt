-- ===== src/Kernel/Wait/Reap.antt =====
-- Which child a call of waitpid reports, and what is left of it.
use ixland.Prelude.{
  ℕ, ◌+◌, ◌-◌, ◌<◌, ◌≡◌, ◌≢◌, refl, ap, ◌∙◌, Bool, true, false, Option, none, some, List, [], ◌∷◌,
  arith, if◌then◌else◌, ==_refl, ==_ne, has,
}
use ixland.Prelude.Int.{ℤ, pos}
use ixland.Fd.Errno.{echild, esrch}
use ixland.Fd.Files.{Ptr, FileHeap, ok, err, files_free}
use ixland.Kernel.{Task, Kernel, Cmd, update, put_task, on_task, on_current}
use ixland.Kernel.Tasks.{task_hash, unlink, task_free}
use ixland.Kernel.Tasks.Table.{IsTask, IsTable, refs_pos}
use ixland.Kernel.Tasks.Upkeep.{put_task-IsTable, put_task-put_task, put_task_self}
use ixland.Kernel.Tasks.Removal.{without, task_free-last}
use ixland.Kernel.Delivery.{HostSignals}
use ixland.Kernel.Wait.{
  task_to_status, Options, selects, find_child, is_ready, Scan, ready, nothing, no_children,
  no_ready, scan, Waited, finished, blocked, leave, should_reap, unlinked, reap, report, after_scan,
  on_scan, wait_round, wait_loop, waitpid,
}

-- The walk looks only at the children.
find_child-update :
    (tasks : Ptr → Option Task) (test : Task → Bool) (c : Ptr) (o : Option Task) (chain : List Ptr)
    → has c chain ≡ false
    → find_child (update tasks c o) test chain ≡ find_child tasks test chain
unfolding find_child
find_child-update tasks test c o [] out = refl
find_child-update tasks test c o (p ∷ chain) out =
    ground (arith, find_child-update tasks test c o chain)

ready_of : (o : Options) (t : Task) → t.exited ≡ true → is_ready o t ≡ true
ready_of o t gone = ground arith

reaped_of : (t : Task) → t.exited ≡ true → should_reap t ≡ true
reaped_of t gone = ground arith

-- The caller with one more waiter, as the loop sees it.
abbrev pub waiting : Task → Task
waiting t = record t { waiters = t.waiters + 1 }

abbrev pub in_wait : Kernel → Ptr → Task → Kernel
in_wait k c parent = put_task c (some (waiting parent)) k

module _ (host : HostSignals) (k : Kernel) (c : Ptr) (parent : Task) (pid : ℤ) (o : Options)
    (run : k.current ≡ some c) (e : IsTask k c parent) (apart : has c parent.children ≡ false) where
  pub starts :
      (others : List (Kernel → Kernel))
      → waitpid host pid o others k ≡ wait_loop host o pid c others (in_wait k c parent)
  unfolding waitpid
  starts others = ap (on_current (finished (err esrch) none) body k) run ∙ ap (on_task (body c) k) e
    where
      body : Ptr → Task → Cmd Waited
      body c parent l = wait_loop host o pid c others (in_wait l c parent)

  pub round :
      (again : Cmd Waited) (s : Scan)
      → scan o pid (waiting parent) (in_wait k c parent) ≡ some s
      → wait_round host o pid c again (in_wait k c parent)
        ≡ after_scan host c (waiting parent) again (in_wait k c parent) s
  round again s f =
      rw (wait_round, ==_refl c) (ap (on_scan host c (waiting parent) again (in_wait k c parent)) f)

  same_walk :
      find_child (in_wait k c parent).tasks (selects pid o parent.pgid) parent.children
      ≡ find_child k.tasks (selects pid o parent.pgid) parent.children
  same_walk =
      find_child-update k.tasks (selects pid o parent.pgid) c (some (waiting parent))
        parent.children apart

  left_again : leave c (waiting parent) (in_wait k c parent) ≡ k
  left_again =
      put_task-put_task k c _ _
      ∙ ap (λ n. put_task c (some (record parent { waiters = n })) k) back
      ∙ put_task_self k c (some parent) e
    where
      back : parent.waiters + 1 - 1 ≡ parent.waiters
      back = omega arith

  -- The call does what its first round does.
  first_round :
      (others : List (Kernel → Kernel)) (s : Scan)
      → scan o pid (waiting parent) (in_wait k c parent) ≡ some s
      → (again : Cmd Waited) × (waitpid host pid o others k
          ≡ after_scan host c (waiting parent) again (in_wait k c parent) s)
  unfolding wait_loop
  first_round [] s f =
      let again : Cmd Waited = λ l. some (blocked, l) in (again, starts [] ∙ round again s f)
  first_round (other ∷ others) s f =
      let again : Cmd Waited = λ l. wait_loop host o pid c others (other l) in
      (again, starts (other ∷ others) ∙ round again s f)

  pub idle :
      find_child k.tasks (selects pid o parent.pgid) parent.children ≡ some none
      → scan o pid (waiting parent) (in_wait k c parent) ≡ some (no_ready o parent.children)
  unfolding scan
  idle none_found = rw (scan, same_walk ∙ none_found)

  -- A live caller that is not its own child, has no child that the call selects and does not wish
  -- to wait gets 0, and nothing changes, also when it has no children at all.
  waitpid-nohang :
      (others : List (Kernel → Kernel))
      → find_child k.tasks (selects pid o parent.pgid) parent.children ≡ some none
      → o.nohang ≡ true
      → waitpid host pid o others k ≡ some (finished (ok (pos 0)) none, k)
  waitpid-nohang others none_found nohang =
      let (again, eq) =
        first_round others nothing (idle none_found ∙ ap some (lets_go parent.children)) in
      eq ∙ ap (λ l. some (finished (ok (pos 0)) none, l)) left_again
    where
      lets_go : (chain : List Ptr) → no_ready o chain ≡ nothing
      lets_go [] = rw nohang
      lets_go (p ∷ chain) = rw nohang

  -- A live caller without children that is ready to wait gets ECHILD, and nothing changes.
  waitpid-no_children :
      (others : List (Kernel → Kernel))
      → parent.children ≡ []
      → o.nohang ≡ false
      → waitpid host pid o others k ≡ some (finished (err echild) none, k)
  unfolding find_child
  waitpid-no_children others childless hang =
      let (again, eq) = first_round others no_children (
        idle (ap (find_child k.tasks (selects pid o parent.pgid)) childless)
        ∙ ap some (ap (no_ready o) childless ∙ rw hang)) in
      eq ∙ ap (λ l. some (finished (err echild) none, l)) left_again

  module _ (p : Ptr) (t : Task) (ep : IsTask k p t) (other : p ≢ c) where
    -- The parent without the child.
    abbrev bereaved : Kernel
    bereaved = put_task c (some (record parent { children = unlink p parent.children })) k

    selected :
        find_child k.tasks (selects pid o parent.pgid) parent.children ≡ some (some p)
        → t.exited ≡ true
        → scan o pid (waiting parent) (in_wait k c parent) ≡ some (ready p t)
    unfolding scan
    selected found gone =
        rw (scan, same_walk ∙ found) (rw (==_ne p c other) (rw (scan, ep) (rw (ready_of o t gone))))

    gone_from_list :
        t.exited ≡ true
        → put_task c (some (unlinked p t (waiting parent))) (in_wait k c parent) ≡ bereaved
    gone_from_list gone =
        put_task-put_task k c _ _
        ∙ ap (λ u. put_task c (some u) k) (fewer (should_reap t) (reaped_of t gone))
      where
        back : parent.waiters + 1 - 1 ≡ parent.waiters
        back = omega arith

        fewer :
            (b : Bool)
            → b ≡ true
            → ◌≡◌ {A = Task}
                (record parent {
                  children = if b then unlink p parent.children else parent.children;
                  waiters = parent.waiters + 1 - 1;
                })
                (record parent { children = unlink p parent.children })
        fewer true d =
            ap (λ n. record parent { children = unlink p parent.children; waiters = n }) back
        fewer false d = cc

    reported :
        t.exited ≡ true
        → (l : Kernel) → task_free p bereaved ≡ some (tt, l)
        → report host c (waiting parent) p t (in_wait k c parent)
          ≡ some (finished (ok t.pid) (some (task_to_status host t)), l)
    unfolding report
    reported gone l freed =
        ap (λ b. (if b then reap result p else λ m. some (result, m)) k') (reaped_of t gone)
        ∙ ap (reap result p) (gone_from_list gone)
        ∙ rw (reap, freed)
      where
        result : Waited
        result = finished (ok t.pid) (some (task_to_status host t))

        k' : Kernel
        k' = put_task c (some (unlinked p t (waiting parent))) (in_wait k c parent)

    -- In a task table in order, a live caller that is not its own child waits, and the walk finds a
    -- child that has exited, is not referenced elsewhere and whose table can be freed. The call
    -- reports the child's number and status; the child is gone from the kernel, its number is free,
    -- and the parent's list and the task table, which stays in order, no longer hold it.
    pub waitpid-reaps :
        (others : List (Kernel → Kernel)) (h : FileHeap)
        → IsTable k
        → find_child k.tasks (selects pid o parent.pgid) parent.children ≡ some (some p)
        → t.exited ≡ true
        → ¬ (1 < t.refs)
        → files_free t.files k.file_heap ≡ some h
        → (i : ℕ) × (task_hash t.pid ≡ some i)
          × (waitpid host pid o others k
              ≡ some (finished (ok t.pid) (some (task_to_status host t)), without bereaved p t i h))
          × IsTable (without bereaved p t i h)
    waitpid-reaps others h v found gone last freed =
        let there : IsTask bereaved p t = rw (==_ne p c other) ep in
        let (i, at, free_last, good) = task_free-last bereaved table p t there h last freed in
        let (again, eq) = first_round others (ready p t) (selected found gone) in
        (i, at, eq ∙ reported gone (without bereaved p t i h) free_last, good)
      where
        table : IsTable bereaved
        table = put_task-IsTable k v c parent _ e refl (refs_pos k v c parent e)
