-- ===== src/Kernel/Identity/Groups.antt =====
-- Who may move whom between process groups, and what the calls leave unchanged.
use ixland.Prelude.{
  ℕ, ◌+◌, ◌-◌, ◌<◌, ◌≡◌, ◌≢◌, refl, ap, ap₂, sym, ◌∙◌, Bool, true, false, ◌||◌, ◌&&◌, not, none,
  some, arith, if◌then◌else◌, ==_refl,
}
use ixland.Prelude.Int.{ℤ, pos, eqb, eqb_refl}
use ixland.Fd.Errno.{esrch, eperm}
use ixland.Fd.Files.{Ptr, Outcome, ok, err}
use ixland.Kernel.{
  Task, Kernel, Cmd, with_current-some, pure, load, >>=-some, ◌>>◌, store, put_task,
}
use ixland.Kernel.Tasks.{task_free, task_lookup, task_hash}
use ixland.Kernel.Tasks.Table.{
  IsTask, IsTable, with_refs, refs_pos, task_lookup-found, task_lookup-missing,
}
use ixland.Kernel.Tasks.Upkeep.{task_free-shared, task_free-retained, put_task-put_task}
use ixland.Kernel.Identity.{move_group, set_group, setpgid_as, setpgid, setsid_as, setsid}

-- The caller is the target or its parent, and they share a session.
abbrev pub may_move : Task → Task → Bool
may_move current t = (eqb t.ppid current.pid || eqb t.pid current.pid) && eqb t.sid current.sid

abbrev pub moved : Task → ℤ → Task
moved t pgid = record t { pgid = pgid }

-- The kernel while a call holds a reference to the task.
abbrev pub held : Kernel → Ptr → Task → Kernel
held k p t = put_task p (some (with_refs t (t.refs + 1))) k

guarded :
    {A : Type 0} (a b c : Bool) (refuse grant : Cmd A) (k : Kernel)
    → (if not a && not b then refuse else if not c then refuse else grant) k
      ≡ (if (a || b) && c then grant k else refuse k)
guarded true b true refuse grant k = refl
guarded true b false refuse grant k = refl
guarded false true true refuse grant k = refl
guarded false true false refuse grant k = refl
guarded false false c refuse grant k = refl

module _ (k : Kernel) (p : Ptr) (t : Task) (e : IsTask k p t) (live : 0 < t.refs) where
  refuse : Cmd (Outcome ℤ)
  refuse = task_free p >> pure (err eperm)

  refuses : refuse (held k p t) ≡ some (err eperm, k)
  unfolding refuse
  refuses = >>=-some (task_free p) _ _ k tt (task_free-retained k p t e live)

  -- The release after the write, from the kernel with the target referenced.
  released :
      (pgid : ℤ)
      → task_free p (put_task p (some (moved (with_refs t (t.refs + 1)) pgid)) k)
        ≡ some (tt, put_task p (some (moved t pgid)) k)
  released pgid =
      task_free-shared _ p (moved (with_refs t (t.refs + 1)) pgid) (rw (==_refl p)) (omega arith)
      ∙ ap (λ l. some (tt, l))
          (put_task-put_task k p _ _
            ∙ ap (λ n. put_task p (some (with_refs (moved t pgid) n)) k) back)
    where
      back : t.refs + 1 - 1 ≡ t.refs
      back = omega arith

  grant : ℤ → Cmd (Outcome ℤ)
  grant pgid = store p (moved (with_refs t (t.refs + 1)) pgid) >> (task_free p >> pure (ok (pos 0)))

  grants :
      (pgid : ℤ) → grant pgid (held k p t) ≡ some (ok (pos 0), put_task p (some (moved t pgid)) k)
  unfolding grant
  grants pgid =
      ap (λ l. (task_free p >> pure (ok (pos 0))) l) (put_task-put_task k p _ _)
      ∙ >>=-some (task_free p) _ _ _ tt (released pgid)

  move_group-may_move :
      (current : Task) (pgid : ℤ)
      → move_group current p pgid (held k p t) ≡ (
          if may_move current t
          then some (ok (pos 0), put_task p (some (moved t pgid)) k)
          else some (err eperm, k))
  unfolding move_group refuse grant
  move_group-may_move current pgid =
      >>=-some (load p) _ (held k p t) (held k p t) (with_refs t (t.refs + 1))
        (rw (load, ==_refl p))
      ∙ (guarded (eqb t.ppid current.pid) (eqb t.pid current.pid) (eqb t.sid current.sid) refuse
            (grant pgid) _
          ∙ ap₂ (λ x y. if may_move current t then x else y) (grants pgid) refuses)

-- A call of setpgid on a task of the table, `0` standing for the caller and for the target's own
-- number: it moves the target exactly when the caller is the target or its parent and both are in
-- one session, and otherwise fails with EPERM; nothing but the target's group changes.
pub setpgid-may_move :
    (k : Kernel) (c p : Ptr) (current t : Task) (pid pgid : ℤ)
    → IsTable k
    → k.current ≡ some c
    → IsTask k c current
    → IsTask k p t
    → t.pid ≡ (if eqb pid (pos 0) then current.pid else pid)
    → setpgid pid pgid k ≡ (
        if may_move current t
        then some
            (ok (pos 0), put_task p (some (moved t (if eqb pgid (pos 0) then t.pid else pgid))) k)
        else some (err eperm, k))
unfolding setpgid setpgid_as set_group
setpgid-may_move k c p current t pid pgid v run ec e target =
    with_current-some (err esrch) (λ _. setpgid_as pid pgid) k c current run ec
    ∙ (ap (λ n. set_group current n (if eqb pgid (pos 0) then n else pgid) k) (sym target)
        ∙ >>=-some (task_lookup t.pid) _ k (held k p t) (some p) (task_lookup-found k v p t e)
        ∙ move_group-may_move k p t e (refs_pos k v p t e) current
            (if eqb pgid (pos 0) then t.pid else pgid))

-- Without a task for the number the call fails with ESRCH and changes nothing.
setpgid-missing :
    (k : Kernel) (c : Ptr) (current : Task) (pid : ℤ) (pgid : ℤ) (i : ℕ)
    → IsTable k
    → k.current ≡ some c
    → IsTask k c current
    → eqb pid (pos 0) ≡ false
    → task_hash pid ≡ some i
    → ((p : Ptr) (t : Task) → IsTask k p t → t.pid ≢ pid)
    → setpgid pid pgid k ≡ some (err esrch, k)
unfolding setpgid setpgid_as set_group
setpgid-missing k c current pid pgid i v run ec other at absent =
    with_current-some (err esrch) (λ _. setpgid_as pid pgid) k c current run ec
    ∙ rw other (>>=-some (task_lookup pid) _ k k none (task_lookup-missing k v pid i at absent))

abbrev pub leads : Task → Task
leads t = record t { sid = t.pid; pgid = t.pid }

-- A calling task that leads its process group cannot start a session; any other becomes the leader
-- of a new session and group of its own number, and a second call then fails.
setsid_once :
    (k : Kernel) (c : Ptr) (t : Task)
    → k.current ≡ some c
    → IsTask k c t
    → (eqb t.pgid t.pid ≡ true → setsid k ≡ some (err eperm, k))
      × (eqb t.pgid t.pid ≡ false
          → (setsid k ≡ some (ok t.pid, put_task c (some (leads t)) k))
            × (setsid (put_task c (some (leads t)) k)
                ≡ some (err eperm, put_task c (some (leads t)) k)))
unfolding setsid
setsid_once k c t run e = (
  λ leader. with_current-some (err esrch) setsid_as k c t run e ∙ rw leader,
  λ member. (
    with_current-some (err esrch) setsid_as k c t run e ∙ rw member,
    with_current-some (err esrch) setsid_as (put_task c (some (leads t)) k) c (leads t) run
          (rw (==_refl c))
        ∙ rw (eqb_refl t.pid),
  ),
)
