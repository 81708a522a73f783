-- ===== src/Kernel/Masks.antt =====
-- IXLandSystem/kernel/signal.c: handlers, masks and pending signals of a task, and the alarm. A
-- host `sigset_t` is the set of its members. A NULL argument is `none`.
pub mod Handlers
pub mod Sleeping
pub mod Woken
use ixland.Prelude.{
  ℕ, zero, suc, ◌+◌, ◌-◌, ◌%◌, ◌^◌, Bool, true, false, not, ◌&&◌, ◌||◌, Option, none, some, ◌==◌,
  leb, ltb, if◌then◌else◌,
}
use ixland.Prelude.Int.{ℤ, pos, negsuc}
use ixland.Fd.Errno.{Errno, esrch, einval, efault, eintr}
use ixland.Fd.Files.{Ptr, Outcome, ok, err}
use ixland.Kernel.{
  Task, Action, Sighand, Kernel, Cmd, with_current, pure, ◌>>=◌, ◌>>◌, update, put_task, store,
}
use ixland.Kernel.Sigset.{nsig}
use ixland.Kernel.Delivery.{HostSignals, signal_number}

abbrev pub HostSet : Type 0
HostSet = ℕ → Bool

abbrev pub empty_set : HostSet
empty_set _ = false

abbrev default_action : Action
default_action = record { handler = 0; mask = empty_set; flags = 0 }

-- `ixland_sighand_alloc`, where `calloc` succeeds.
abbrev pub new_sighand : Sighand
new_sighand = record { action = λ _. default_action; blocked = empty_set; pending = empty_set }

unfoldable sighand_alloc : Bool → Option Sighand
sighand_alloc false = none
sighand_alloc true = some new_sighand

unfoldable sighand_dup : Bool → Option Sighand → Option Sighand
sighand_dup memory none = none
sighand_dup false (some parent) = none
sighand_dup true (some parent) =
    some
      (record new_sighand { action = parent.action; blocked = parent.blocked; pending = empty_set })

abbrev with_sighand : Ptr → Task → Sighand → Cmd (Unit {0})
with_sighand c t h = store c (record t { sighand = some h })

-- `sig < 1 || sig >= IXLAND_NSIG`, or a signal whose action is fixed.
abbrev pub is_catchable : HostSignals → ℤ → Bool
is_catchable host (negsuc n) = false
is_catchable host (pos sig) =
    leb 1 sig && ltb sig nsig && not (sig == host.sigkill) && not (sig == host.sigstop)

-- The task's handling state, or a failure if there is no task or it has none.
abbrev pub on_sighand {ℓ} :
    {A : Type ℓ}
    → A
    → (Ptr → Task → Sighand → Kernel → Option (A × Kernel))
    → Ptr
    → Task
    → Kernel
    → Option (A × Kernel)
on_sighand missing body c t k = elim t.sighand [ none ↦ some (missing, k) | some h ↦ body c t h k ]

-- Install the action if there is one; the old one is returned.
abbrev pub install : ℕ → Option Action → Ptr → Task → Sighand → Cmd (Outcome Action)
install sig none c t h = pure (ok (h.action sig))
install sig (some act) c t h = do
  with_sighand c t (record h { action = update h.action sig act })
  pure (ok (h.action sig))

-- The result is what is stored through `oldact`.
unfoldable pub sigaction : HostSignals → ℤ → Option Action → Cmd (Outcome Action)
sigaction host sig act =
    if is_catchable host sig
    then with_current (err esrch) (on_sighand (err esrch) (install (signal_number sig) act))
    else pure (err einval)

-- `ixland_signal`: the handler alone, with no flags and an empty mask; the old handler is returned.
abbrev install_handler : ℕ → ℕ → Ptr → Task → Sighand → Cmd (Outcome ℕ)
install_handler sig handler c t h = do
  with_sighand c t (record h {
    action = update h.action sig (record { handler = handler; mask = empty_set; flags = 0 });
  })
  pure (ok ((h.action sig).handler))

unfoldable pub signal : HostSignals → ℤ → ℕ → Cmd (Outcome ℕ)
signal host sig handler =
    if is_catchable host sig
    then with_current (err esrch)
        (on_sighand (err esrch) (install_handler (signal_number sig) handler))
    else pure (err einval)

-- SIG_BLOCK, SIG_UNBLOCK, SIG_SETMASK, and any other number.
pub data How : Type 0 where
  block unblock setmask unknown : How

-- The loops over the signals 1 to 63: `rounds` of them from `i` up.
unfoldable pub set_members : ℕ → ℕ → Bool → HostSet → HostSet → HostSet
set_members zero i value set blocked = blocked
set_members (suc rounds) i value set blocked =
    set_members rounds (i + 1) value set (if set i then update blocked i value else blocked)

unfoldable pub new_mask : How → HostSet → HostSet → Outcome HostSet
new_mask How.block set blocked = ok (set_members (nsig - 1) 1 true set blocked)
new_mask How.unblock set blocked = ok (set_members (nsig - 1) 1 false set blocked)
new_mask How.setmask set blocked = ok set
new_mask How.unknown set blocked = err einval

abbrev write_mask : Ptr → Task → Sighand → Outcome HostSet → Cmd (Outcome HostSet)
write_mask c t h (err e) = pure (err e)
write_mask c t h (ok blocked) = do
  with_sighand c t (record h { blocked = blocked })
  pure (ok h.blocked)

abbrev pub change_mask : How → Option HostSet → Ptr → Task → Sighand → Cmd (Outcome HostSet)
change_mask how none c t h = pure (ok h.blocked)
change_mask how (some set) c t h = write_mask c t h (new_mask how set h.blocked)

-- The result is what is stored through `oldset`.
unfoldable pub sigprocmask : How → Option HostSet → Cmd (Outcome HostSet)
sigprocmask how set = with_current (err esrch) (on_sighand (err esrch) (change_mask how set))

-- The flag says whether the caller's pointer is not NULL.
pub sigpending : Bool → Cmd (Outcome HostSet)
sigpending false = pure (err efault)
sigpending true = with_current (err esrch) (on_sighand (err esrch) (λ c t h. pure (ok h.pending)))

-- The alarm's state, and the two calls of `time`.
pub record Alarm : Type 0 where
  pub remaining : ℕ
  pub set_time : ℕ
  pub is_active : Bool

-- `elapsed < (time_t)alarm_remaining`, where a clock set back makes `elapsed` negative, and then
-- the difference of unsigned numbers.
abbrev pub left : Alarm → ℕ → ℕ
left a now =
    if a.is_active && ltb 0 a.set_time && ltb now (a.set_time + a.remaining)
    then (a.remaining + a.set_time - now) % 2 ^ 32
    else 0

unfoldable pub alarm : ℕ → ℕ → ℕ → Alarm → ℕ × Alarm
alarm seconds now later a = (
  left a now,
  if seconds == 0
      then record { remaining = 0; set_time = 0; is_active = false }
      else record { remaining = seconds; set_time = later; is_active = true },
)
