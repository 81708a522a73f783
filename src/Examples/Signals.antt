-- ===== src/Examples/Signals.antt =====
-- Signals to the three tasks, handlers, masks, and the host's sets.
use ixland.Prelude.{[], ◌∷◌, ◌++◌, replicate, true, ◌≡◌, ◌≢◌, ◌==◌, refl, false, some, arith}
use ixland.Prelude.Int.{pos}
use ixland.Fd.Files.{Ptr, ok}
use ixland.Kernel.{Task, Kernel, put_task}
use ixland.Kernel.Sigset.{Sigset, sigismember, sigset_to_host, sigset_from_host}
use ixland.Kernel.Sigset.Members.{IsSigset}
use ixland.Kernel.Sigset.Host.{sigset_from_host-sigset_to_host}
use ixland.Kernel.Delivery.{kill}
use ixland.Kernel.Delivery.Kill.{HasLiveParent}
use ixland.Kernel.Delivery.Effects.{AreDistinct}
use ixland.Kernel.Delivery.Signalled.{Signalled, kill-Signalled}
use ixland.Kernel.Masks.{new_sighand, HostSet}
use ixland.Kernel.Masks.Handlers.{Handles}
use ixland.Kernel.Masks.Sleeping.{failed, sigsuspend}
use ixland.Kernel.Masks.Woken.{suspended, sigsuspend-restores}
use ixland.Fd.Errno.{eintr}
use ixland.Examples.Family.{linux, caller, zombie_child, family, family-IsTable}

parent_lives : HasLiveParent family zombie_child
parent_lives q e = (caller, ground arith)

linux-AreDistinct : AreDistinct linux
linux-AreDistinct = (refl, (refl, (refl, (refl, (refl, tt)))))

kill-Signalled_example :
    (u : Task) × (kill linux (pos 1002) (pos 15) family
      ≡ some (ok (pos 0), put_task 3 (some u) family))
    × Signalled linux 15 new_sighand zombie_child u
kill-Signalled_example =
    kill-Signalled linux family 3 zombie_child new_sighand 1001 15 linux-AreDistinct family-IsTable
      refl refl refl parent_lives (omega arith) (omega arith)

caller-Handles : Handles family 2 caller new_sighand
caller-Handles = record { runs = refl; lives = refl; handles = refl }

abbrev no_mask : HostSet
no_mask j = false

-- Another thread makes SIGINT pending and changes nothing else.
abbrev interrupted : Kernel → Kernel
interrupted k =
    put_task 2
      (some (record caller {
        sighand = some (record new_sighand { pending = λ j. j == 2 });
        waiters = 1;
      }))
      k

sigsuspend-restores_example :
    (l : Kernel) × (sigsuspend (some no_mask) interrupted family ≡ some (failed eintr, l))
    × (l.tasks 2
        ≡ some (record caller {
          sighand =
              some (record new_sighand { pending = λ j. j == 2; blocked = new_sighand.blocked });
          waiters = 0;
        }))
    × ((q : Ptr)
        → q ≢ 2
        → l.tasks q
          ≡ (interrupted (suspended family 2 caller new_sighand caller-Handles no_mask)).tasks q)
sigsuspend-restores_example =
    sigsuspend-restores family 2 caller new_sighand caller-Handles no_mask interrupted
      (record caller { sighand = some (record new_sighand { pending = λ j. j == 2 }); waiters = 1 })
      (record new_sighand { pending = λ j. j == 2 }) refl refl

abbrev two_signals : Sigset
two_signals = (false ∷ true ∷ replicate 6 false ++ (true ∷ replicate 55 false)) ∷ []

two_signals-IsSigset : IsSigset two_signals
two_signals-IsSigset = (false ∷ true ∷ replicate 6 false ++ (true ∷ replicate 55 false), refl, refl)

sigset_from_host-sigset_to_host_example :
    sigismember (sigset_from_host 32 (sigset_to_host 32 two_signals)) (pos 9)
    ≡ sigismember two_signals (pos 9)
sigset_from_host-sigset_to_host_example =
    sigset_from_host-sigset_to_host two_signals 32 9 two_signals-IsSigset (omega arith, omega arith)
      (omega arith)
