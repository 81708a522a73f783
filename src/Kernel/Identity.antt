-- ===== src/Kernel/Identity.antt =====
-- IXLandSystem/kernel/task.c: process groups and sessions.
pub mod Groups
use ixland.Prelude.{
  ℕ, Bool, true, false, not, ◌&&◌, Option, none, some, List, [], ◌∷◌, ◌==◌, if◌then◌else◌,
}
use ixland.Prelude.Int.{ℤ, pos, negsuc, eqb}
use ixland.Fd.Errno.{Errno, esrch, eperm}
use ixland.Fd.Files.{Ptr, Outcome, ok, err}
use ixland.Kernel.{Task, Kernel, Cmd, with_current, pure, ◌>>=◌, ◌>>◌, load, put_task, store}
use ixland.Kernel.Tasks.{task_lookup, task_free}

unfoldable getpgrp : Cmd (Outcome ℤ)
getpgrp = with_current (err esrch) λ c t. pure (ok t.pgid)

-- `ixland_getpgid` and `ixland_getsid` of a number other than 0: the field of the task found.
unfoldable read_task : (Task → ℤ) → ℤ → Cmd (Outcome ℤ)
read_task field pid = do
  found ← task_lookup pid
  elim found [
    | none ↦ pure (err esrch)
    | some p ↦ (do t ← load p; task_free p; pure (ok (field t)))
  ]

unfoldable getpgid : ℤ → Cmd (Outcome ℤ)
unfolding getpgrp
getpgid pid = if eqb pid (pos 0) then getpgrp else read_task (λ t. t.pgid) pid

unfoldable getsid : ℤ → Cmd (Outcome ℤ)
getsid pid =
    if eqb pid (pos 0)
    then with_current (err esrch) (λ c t. pure (ok t.sid))
    else read_task (λ t. t.sid) pid

-- `ixland_setpgid` once the target is found and referenced.
unfoldable pub move_group : Task → Ptr → ℤ → Cmd (Outcome ℤ)
move_group current target pgid = do
  t ← load target
  if not (eqb t.ppid current.pid) && not (eqb t.pid current.pid)
      then (do task_free target; pure (err eperm))
      else if not (eqb t.sid current.sid)
      then (do task_free target; pure (err eperm))
      else (do store target (record t { pgid = pgid }); task_free target; pure (ok (pos 0)))

unfoldable pub set_group : Task → ℤ → ℤ → Cmd (Outcome ℤ)
set_group current pid pgid = do
  found ← task_lookup pid
  elim found [ none ↦ pure (err esrch) | some target ↦ move_group current target pgid ]

-- `0` stands for the caller's number and for the target's own number.
unfoldable pub setpgid_as : ℤ → ℤ → Task → Cmd (Outcome ℤ)
setpgid_as pid pgid current =
    let target = if eqb pid (pos 0) then current.pid else pid in
    set_group current target (if eqb pgid (pos 0) then target else pgid)

unfoldable pub setpgid : ℤ → ℤ → Cmd (Outcome ℤ)
setpgid pid pgid = with_current (err esrch) λ c current. setpgid_as pid pgid current

abbrev pub setsid_as : Ptr → Task → Cmd (Outcome ℤ)
setsid_as c t =
    if eqb t.pgid t.pid
    then pure (err eperm)
    else (do store c (record t { sid = t.pid; pgid = t.pid }); pure (ok t.pid))

unfoldable setsid : Cmd (Outcome ℤ)
setsid = with_current (err esrch) setsid_as
