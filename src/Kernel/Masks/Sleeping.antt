-- ===== src/Kernel/Masks/Sleeping.antt =====
-- signal.c: pause and sigsuspend. What the other threads do during a wait is an argument.
use ixland.Prelude.{
  ℕ, zero, suc, ◌+◌, ◌-◌, Bool, true, false, Option, none, some, List, [], ◌∷◌, if◌then◌else◌,
}
use ixland.Fd.Errno.{Errno, esrch, efault, eintr}
use ixland.Fd.Files.{Ptr}
use ixland.Kernel.{Task, Sighand, Kernel, Cmd, with_current, put_task}
use ixland.Kernel.Sigset.{nsig}
use ixland.Kernel.Masks.{HostSet}

-- The calls always fail, or they still wait when nobody wakes them any more.
pub data Slept : Type 0 where
  failed : Errno → Slept
  asleep : Slept

-- The loop over the signals: `n` rounds from `i` up.
unfoldable pub none_set : ℕ → ℕ → HostSet → Bool
none_set zero i set = true
none_set (suc n) i set = let rest = none_set n (suc i) set in if set i then false else rest

abbrev sigset_is_empty : HostSet → Bool
sigset_is_empty set = none_set (nsig - 1) 1 set

-- One wait on the condition variable: the task counts as a waiter while `other` runs.
abbrev pub counted : Ptr → (ℕ → ℕ) → Kernel → Option Kernel
counted c f k = elim (k.tasks c) [
  | none ↦ none
  | some t ↦ some (put_task c (some (record t { waiters = f t.waiters })) k)
]

abbrev pub then_counted : Ptr → (ℕ → ℕ) → (Kernel → Kernel) → Option Kernel → Option Kernel
then_counted c f other none = none
then_counted c f other (some k) = counted c f (other k)

unfoldable pub wait_once : Ptr → (Kernel → Kernel) → Kernel → Option Kernel
wait_once c other k = then_counted c (λ n. n - 1) other (counted c (λ n. n + 1) k)

-- `task->sighand->pending`.
abbrev pub pending_of : Option Task → Option HostSet
pending_of none = none
pending_of (some t) = elim t.sighand [ none ↦ none | some h ↦ some h.pending ]

abbrev after_test : Cmd Slept → Kernel → Option HostSet → Option (Slept × Kernel)
after_test again k none = none
after_test again k (some pending) =
    if sigset_is_empty pending then again k else some (failed eintr, k)

abbrev resume : Cmd Slept → Option Kernel → Option (Slept × Kernel)
resume again none = none
resume again (some k) = again k

unfoldable pub pause_loop : Ptr → List (Kernel → Kernel) → Cmd Slept
pause_loop c [] k = after_test (λ l. some (asleep, l)) k (pending_of (k.tasks c))
pause_loop c (other ∷ others) k =
    after_test (λ l. resume (pause_loop c others) (wait_once c other l)) k (pending_of (k.tasks c))

unfoldable pub pause : List (Kernel → Kernel) → Cmd Slept
pause others = with_current (failed esrch) (λ c t. pause_loop c others)

-- `task->sighand->blocked = mask`.
abbrev with_blocked : HostSet → Task → Option Task
with_blocked mask t = elim t.sighand [
  | none ↦ none
  | some h ↦ some (record t { sighand = some (record h { blocked = mask }) })
]

abbrev pub block_now : Ptr → HostSet → Kernel → Option Kernel
block_now c mask k = elim (k.tasks c) [
  | none ↦ none
  | some t ↦ elim (with_blocked mask t) [ none ↦ none | some u ↦ some (put_task c (some u) k) ]
]

-- After the wait the old mask is put back.
abbrev pub ended : Option Kernel → Option (Slept × Kernel)
ended none = none
ended (some k) = some (failed eintr, k)

abbrev pub restored : Ptr → HostSet → Option Kernel → Option (Slept × Kernel)
restored c old none = none
restored c old (some k) = ended (block_now c old k)

abbrev pub woken : Ptr → HostSet → (Kernel → Kernel) → Option Kernel → Option (Slept × Kernel)
woken c old other none = none
woken c old other (some k) = restored c old (wait_once c other k)

abbrev pub suspend_on :
    Option HostSet → (Kernel → Kernel) → Ptr → Option Sighand → Kernel → Option (Slept × Kernel)
suspend_on mask other c none k = some (failed esrch, k)
suspend_on none other c (some h) k = some (failed efault, k)
suspend_on (some mask) other c (some h) k = woken c h.blocked other (block_now c mask k)

-- The wait is one: it ends when some thread wakes the caller after `other`.
unfoldable pub sigsuspend : Option HostSet → (Kernel → Kernel) → Cmd Slept
sigsuspend mask other = with_current (failed esrch) (λ c t k. suspend_on mask other c t.sighand k)
