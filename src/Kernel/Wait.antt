-- ===== src/Kernel/Wait.antt =====
-- IXLandSystem/kernel/wait.c: waiting for a child. While the call waits on the condition variable
-- the other threads change the kernel; what they do in each wait is an argument, so a run is
-- described by the list of those changes.
pub mod Status
pub mod Reap
pub mod Walk
use ixland.Prelude.{
  ℕ, zero, suc, ◌+◌, ◌-◌, ◌*◌, ◌%◌, Bool, true, false, not, ◌&&◌, ◌||◌, Option, none, some, List,
  [], ◌∷◌, ◌==◌, if◌then◌else◌,
}
use ixland.Prelude.Int.{ℤ, pos, negsuc, eqb}
use ixland.Fd.Errno.{esrch, echild}
use ixland.Fd.Files.{Ptr, Outcome, ok, err}
use ixland.Kernel.{Task, Kernel, Cmd, put_task, on_current}
use ixland.Kernel.Tasks.{unlink, task_free}
use ixland.Kernel.Delivery.{HostSignals}

-- `exit_status & 0xFF` of a signed number.
abbrev pub low_byte : ℤ → ℕ
low_byte (pos n) = n % 256
low_byte (negsuc n) = 255 - n % 256

-- A number shifted left by 8 has no bit in common with 0x7f, so `|` is a sum.
unfoldable pub task_to_status : HostSignals → Task → ℕ
task_to_status host t =
    if t.signaled
    then t.termsig
    else if t.is_stopped
    then t.stopsig * 256 + 0x7f
    else if t.continued
    then host.sigcont * 256 + 0x7f
    else low_byte t.exit_status * 256

-- The macros W_STOPPED and W_CONTINUED.
abbrev pub w_stopped : ℕ → Bool
w_stopped status = status % 256 == 0x7f

abbrev pub w_continued : ℕ → Bool
w_continued status = status == 0xffff

-- WNOHANG, WUNTRACED and WCONTINUED.
pub record Options : Type 0 where
  pub nohang : Bool
  pub untraced : Bool
  pub wants_continued : Bool

abbrev is_reportable : Options → Task → Bool
is_reportable o t = t.exited || (o.untraced && t.is_stopped) || (o.wants_continued && t.continued)

-- The tests of the four walks along the children of a task of the group `pgid`.
abbrev pub selects : ℤ → Options → ℤ → Task → Bool
selects (pos zero) o pgid t = eqb t.pgid pgid && is_reportable o t
selects (pos (suc n)) o pgid t = eqb t.pid (pos (suc n))
selects (negsuc zero) o pgid t = is_reportable o t
selects (negsuc (suc n)) o pgid t = eqb t.pgid (pos (suc (suc n))) && is_reportable o t

unfoldable pub find_child : (Ptr → Option Task) → (Task → Bool) → List Ptr → Option (Option Ptr)
find_child tasks test [] = some none
find_child tasks test (p ∷ chain) = elim (tasks p) [
  | none ↦ none
  | some t ↦ if test t then some (some p) else find_child tasks test chain
]

-- The three tests on the child found.
abbrev pub is_ready : Options → Task → Bool
is_ready o t =
    t.exited
    || (o.untraced && t.is_stopped && not t.exited)
    || (o.wants_continued && t.continued && not t.exited && not t.is_stopped)

-- One round of the loop: a child to report, a return with 0 or ECHILD, or a wait.
pub data Scan : Type 0 where
  ready : Ptr → Task → Scan
  nothing : Scan
  no_children : Scan
  wait : Scan

abbrev pub no_ready : Options → List Ptr → Scan
no_ready o [] = if o.nohang then nothing else no_children
no_ready o (p ∷ chain) = if o.nohang then nothing else wait

unfoldable pub scan : Options → ℤ → Task → Kernel → Option Scan
scan o pid parent k = elim (find_child k.tasks (selects pid o parent.pgid) parent.children) [
  | none ↦ none
  | some none ↦ some (no_ready o parent.children)
  | some (some p) ↦ elim (k.tasks p) [
    | none ↦ none
    | some t ↦ some (if is_ready o t then ready p t else no_ready o parent.children)
  ]
]

-- A finished call returns a number, and a status if it reports a child.
pub data Waited : Type 0 where
  finished : Outcome ℤ → Option ℕ → Waited
  blocked : Waited

abbrev pub leave : Ptr → Task → Kernel → Kernel
leave c parent k = put_task c (some (record parent { waiters = parent.waiters - 1 })) k

abbrev pub should_reap : Task → Bool
should_reap t = t.exited || t.signaled

-- The child leaves the list of its parent if it has terminated.
abbrev pub unlinked : Ptr → Task → Task → Task
unlinked p t parent = record parent {
  children = if should_reap t then unlink p parent.children else parent.children;
  waiters = parent.waiters - 1;
}

abbrev pub reap : Waited → Ptr → Cmd Waited
reap result p k = elim (task_free p k) [ none ↦ none | some (_, l) ↦ some (result, l) ]

-- From the end of the loop on, with the child `t` at `p`.
unfoldable pub report : HostSignals → Ptr → Task → Ptr → Task → Cmd Waited
report host c parent p t k =
    let k' = put_task c (some (unlinked p t parent)) k in
    let result = finished (ok t.pid) (some (task_to_status host t)) in
    (if should_reap t then reap result p else λ l. some (result, l)) k'

-- What one round does; `again` is the rest of the loop after a wait.
abbrev pub after_scan :
    HostSignals → Ptr → Task → Cmd Waited → Kernel → Scan → Option (Waited × Kernel)
after_scan host c parent again k (ready p t) = report host c parent p t k
after_scan host c parent again k nothing = some (finished (ok (pos 0)) none, leave c parent k)
after_scan host c parent again k no_children = some (finished (err echild) none, leave c parent k)
after_scan host c parent again k wait = again k

abbrev pub on_scan :
    HostSignals → Ptr → Task → Cmd Waited → Kernel → Option Scan → Option (Waited × Kernel)
on_scan host c parent again k none = none
on_scan host c parent again k (some s) = after_scan host c parent again k s

abbrev pub wait_round : HostSignals → Options → ℤ → Ptr → Cmd Waited → Cmd Waited
wait_round host o pid c again k = elim (k.tasks c) [
  | none ↦ none
  | some parent ↦ on_scan host c parent again k (scan o pid parent k)
]

-- The loop: `others` is what the other threads do in each wait.
unfoldable pub wait_loop : HostSignals → Options → ℤ → Ptr → List (Kernel → Kernel) → Cmd Waited
wait_loop host o pid c [] = wait_round host o pid c (λ k. some (blocked, k))
wait_loop host o pid c (other ∷ others) =
    wait_round host o pid c (λ k. wait_loop host o pid c others (other k))

unfoldable pub waitpid : HostSignals → ℤ → Options → List (Kernel → Kernel) → Cmd Waited
waitpid host pid o others k =
    on_current (finished (err esrch) none)
      (λ c parent l.
        wait_loop host o pid c others
          (put_task c (some (record parent { waiters = parent.waiters + 1 })) l))
      k k.current

abbrev no_options : Options
no_options = record { nohang = false; untraced = false; wants_continued = false }

-- `ixland_wait`, and the calls with a usage argument, which they ignore.
wait_any : HostSignals → List (Kernel → Kernel) → Cmd Waited
wait_any host = waitpid host (negsuc 0) no_options

wait4 : HostSignals → ℤ → Options → List (Kernel → Kernel) → Cmd Waited
wait4 host pid o = waitpid host pid o

wait3 : HostSignals → Options → List (Kernel → Kernel) → Cmd Waited
wait3 host o = wait4 host (negsuc 0) o
