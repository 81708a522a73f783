-- ===== src/Kernel/Delivery.antt =====
-- IXLandSystem/kernel/signal.c: signals to one task and to a process group. The numbers of the
-- signals are the host's, a parameter. `pthread_kill` and the condition variables leave the
-- modelled state alone.
pub mod Effects
pub mod Kill
pub mod Signalled
pub mod Group
use ixland.Prelude.{
  ℕ, zero, suc, ◌+◌, Bool, true, false, ◌&&◌, ◌||◌, Option, none, some, List, [], ◌∷◌, ◌++◌, ◌==◌,
  leb, ltb, if◌then◌else◌, length,
}
use ixland.Prelude.Int.{ℤ, pos, negsuc, eqb}
use ixland.Fd.Errno.{Errno, esrch, eperm, einval}
use ixland.Fd.Files.{Ptr, Outcome, ok, err}
use ixland.Kernel.{
  Task, TaskState, Sighand, Kernel, Cmd, with_current, pure, ◌>>=◌, ◌>>◌, update, put_task,
}
use ixland.Kernel.Sigset.{nsig}
use ixland.Kernel.Tasks.{task_lookup, task_free, max_tasks, retain}

-- SIGKILL, SIGTERM, SIGINT, SIGSTOP and SIGCONT of the host's <signal.h>, and the last signal that its
-- `sigset_t` holds, 32 on Darwin; its sigaddset does nothing for a larger number.
pub record HostSignals : Type 0 where
  pub sigkill : ℕ
  pub sigterm : ℕ
  pub sigint : ℕ
  pub sigstop : ℕ
  pub sigcont : ℕ
  pub last_signal : ℕ

abbrev pub with_pending : HostSignals → Sighand → ℕ → Sighand
with_pending host h sig =
    if leb sig host.last_signal then record h { pending = update h.pending sig true } else h

abbrev pub is_terminating : HostSignals → ℕ → Bool
is_terminating host sig = sig == host.sigterm || sig == host.sigkill || sig == host.sigint

abbrev on_stop : HostSignals → ℕ → Task → Task
on_stop host sig t =
    if sig == host.sigstop
    then record t { state = TaskState.stopped; is_stopped = true; stopsig = host.sigstop }
    else t

abbrev on_cont : HostSignals → ℕ → Task → Task
on_cont host sig t =
    if sig == host.sigcont
    then record t { state = TaskState.running; is_stopped = false; continued = true }
    else t

abbrev on_terminate : HostSignals → ℕ → Task → Task
on_terminate host sig t =
    if is_terminating host sig
    then record t { signaled = true; termsig = sig; exited = true; state = TaskState.zombie }
    else t

-- The writes to the task, in the order of the code.
unfoldable pub signal_effects : HostSignals → ℕ → Sighand → Task → Task
signal_effects host sig h t =
    on_terminate host sig
      (on_cont host sig (on_stop host sig (record t { sighand = some (with_pending host h sig) })))

abbrev pub is_visible : HostSignals → ℕ → Task → Bool
is_visible host sig t = sig == host.sigstop || sig == host.sigcont || t.signaled

-- The parent's lock and `waiters` are read, which wants a live parent.
abbrev pub touch : Option Ptr → Cmd (Unit {0})
touch none k = some (tt, k)
touch (some q) k = elim (k.tasks q) [ none ↦ none | some _ ↦ some (tt, k) ]

unfoldable pub apply_signal : HostSignals → Ptr → ℕ → Cmd (Unit {0})
apply_signal host p sig k = elim (k.tasks p) [
  | none ↦ none
  | some t ↦ elim t.sighand [
    | none ↦ none
    | some h ↦
        let t' = signal_effects host sig h t in
        (if is_visible host sig t' then touch t'.parent else pure tt) (put_task p (some t') k)
  ]
]

-- `sig < 0 || sig >= IXLAND_NSIG`; a number that passes is a natural number.
abbrev is_bad_signal : ℤ → Bool
is_bad_signal (negsuc n) = true
is_bad_signal (pos sig) = leb nsig sig

abbrev pub signal_number : ℤ → ℕ
signal_number (pos sig) = sig
signal_number (negsuc n) = 0

abbrev max_matches : ℕ
max_matches = 256

-- The walk along one bucket: a match is referenced and stored while there is room.
unfoldable pub collect_chain : ℤ → List Ptr → List Ptr → Cmd (List Ptr)
collect_chain pgrp [] found k = some (found, k)
collect_chain pgrp (p ∷ chain) found k = elim (k.tasks p) [
  | none ↦ none
  | some t ↦ elim (eqb t.pgid pgrp && ltb (length found) max_matches) [
    | true ↦
        collect_chain pgrp chain (found ++ p ∷ [])
          (put_task p (some (record t { refs = t.refs + 1 })) k)
    | false ↦ collect_chain pgrp chain found k
  ]
]

-- The loop over the buckets from `i` up.
unfoldable pub collect : ℕ → ℤ → ℕ → List Ptr → Cmd (List Ptr)
collect zero pgrp i found k = some (found, k)
collect (suc rounds) pgrp i found k = elim (collect_chain pgrp (k.table i) found k) [
  | none ↦ none
  | some (found', k') ↦ collect rounds pgrp (i + 1) found' k'
]

unfoldable pub release_all : List Ptr → Cmd (Unit {0})
release_all [] = pure tt
release_all (p ∷ found) = task_free p >> release_all found

unfoldable pub deliver_all : HostSignals → ℕ → List Ptr → Cmd (Unit {0})
deliver_all host sig [] = pure tt
deliver_all host sig (p ∷ found) =
    apply_signal host p sig >> (task_free p >> deliver_all host sig found)

abbrev is_positive : ℤ → Bool
is_positive (pos n) = ltb 0 n
is_positive (negsuc n) = false

-- What `ixland_killpg` does with the tasks it collected.
unfoldable pub signal_matches : HostSignals → ℕ → List Ptr → Cmd (Outcome ℤ)
signal_matches host sig [] = pure (err esrch)
signal_matches host sig (p ∷ found) =
    if sig == 0
    then (do release_all (p ∷ found); pure (ok (pos 0)))
    else (do deliver_all host sig (p ∷ found); pure (ok (pos 0)))

unfoldable pub killpg : HostSignals → ℤ → ℤ → Cmd (Outcome ℤ)
killpg host pgrp sig =
    if is_bad_signal sig
    then pure (err einval)
    else if is_positive pgrp
    then (collect max_tasks pgrp 0 [] >>= signal_matches host (signal_number sig))
    else pure (err einval)

-- A task that was found: probe it, or deliver.
unfoldable pub signal_target : HostSignals → ℕ → Option Ptr → Cmd (Outcome ℤ)
signal_target host sig none = pure (err esrch)
signal_target host sig (some p) =
    if sig == 0
    then (do task_free p; pure (ok (pos 0)))
    else (do apply_signal host p sig; task_free p; pure (ok (pos 0)))

-- Number 0 is the caller's group, -1 all processes, and -n the group n.
unfoldable pub kill_checked : HostSignals → ℤ → ℤ → Cmd (Outcome ℤ)
kill_checked host (pos zero) sig = with_current (err esrch) λ c t. killpg host t.pgid sig
kill_checked host (pos (suc n)) sig =
    task_lookup (pos (suc n)) >>= signal_target host (signal_number sig)
kill_checked host (negsuc zero) sig = pure (err eperm)
kill_checked host (negsuc (suc n)) sig = killpg host (pos (suc (suc n))) sig

unfoldable pub kill : HostSignals → ℤ → ℤ → Cmd (Outcome ℤ)
kill host pid sig = if is_bad_signal sig then pure (err einval) else kill_checked host pid sig

pub raise : HostSignals → ℤ → Cmd (Outcome ℤ)
raise host sig = with_current (err esrch) λ c t. kill host t.pid sig
