-- ===== src/Kernel/Delivery/Group.antt =====
-- killpg: signals to a process group that nobody is in.
use ixland.Prelude.{
  ℕ, zero, suc, ◌+◌, ◌<◌, ◌≡◌, ◌≢◌, refl, ap, ◌∙◌, ◌⊎◌, inl, inr, true, false, some, List, [], ◌∷◌,
  arith, ltb, leb, if◌then◌else◌, Bool-cases, ==_refl, has,
}
use ixland.Prelude.Int.{ℤ, pos, negsuc, eqb, eqb_iff}
use ixland.Fd.Errno.{esrch, einval}
use ixland.Fd.Files.{Ptr, err}
use ixland.Kernel.{Task, Kernel, pure, >>=-some}
use ixland.Kernel.Sigset.{nsig}
use ixland.Kernel.Tasks.{max_tasks}
use ixland.Kernel.Tasks.Table.{IsTask, IsTable}
use ixland.Kernel.Delivery.{
  HostSignals, collect_chain, collect, signal_matches, kill_checked, killpg, kill,
}

-- Every task of the chain is live and of another group.
abbrev pub IsForeign : Kernel → ℤ → List Ptr → Type 0
IsForeign k pgrp chain =
    (q : Ptr) → has q chain ≡ true → (u : Task) × IsTask k q u × (u.pgid ≢ pgrp)

other_group : (u : Task) (pgrp : ℤ) → u.pgid ≢ pgrp → eqb u.pgid pgrp ≡ false
other_group u pgrp ne = out (Bool-cases (eqb u.pgid pgrp))
  where
    out : (eqb u.pgid pgrp ≡ true) ⊎ (eqb u.pgid pgrp ≡ false) → eqb u.pgid pgrp ≡ false
    out (inl e) = absurd (ne ((eqb_iff u.pgid pgrp).0 e))
    out (inr e) = e

collect_chain-foreign :
    (k : Kernel) (pgrp : ℤ) (chain found : List Ptr)
    → IsForeign k pgrp chain
    → collect_chain pgrp chain found k ≡ some (found, k)
unfolding collect_chain
collect_chain-foreign k pgrp [] found foreign = refl
collect_chain-foreign k pgrp (p ∷ chain) found foreign =
    let (u, e, ne) = foreign p (rw (==_refl p)) in
    rw (collect_chain, e)
      (rw (other_group u pgrp ne)
        (collect_chain-foreign k pgrp chain found (λ q m. foreign q (ground arith))))

collect-foreign :
    (k : Kernel) (pgrp : ℤ) (rounds i : ℕ) (found : List Ptr)
    → ((j : ℕ) → IsForeign k pgrp (k.table j))
    → collect rounds pgrp i found k ≡ some (found, k)
unfolding collect
collect-foreign k pgrp zero i found foreign = refl
collect-foreign k pgrp (suc rounds) i found foreign =
    rw (collect, collect_chain-foreign k pgrp (k.table i) found (foreign i))
      (collect-foreign k pgrp rounds (i + 1) found foreign)

-- In a table in order, a signal 0 to 63 to a process group that no task is in fails with ESRCH and
-- changes nothing, by killpg and, for groups from 2 up, by kill with the negated number.
killpg-missing :
    (host : HostSignals) (k : Kernel) (n sig : ℕ)
    → IsTable k
    → ((p : Ptr) (t : Task) → IsTask k p t → t.pgid ≢ pos (suc (suc n)))
    → sig < nsig
    → (killpg host (pos (suc (suc n))) (pos sig) k ≡ some (err esrch, k))
      × (kill host (negsuc (suc n)) (pos sig) k ≡ some (err esrch, k))
unfolding killpg kill kill_checked signal_matches
killpg-missing host k n sig v absent high = (
  nobody,
  ap (λ b. (if b then pure (err einval) else kill_checked host (negsuc (suc n)) (pos sig)) k) good
      ∙ nobody,
)
  where
    good : leb nsig sig ≡ false
    good = ground arith

    positive : ltb 0 (suc (suc n)) ≡ true
    positive = ground arith

    foreign : (j : ℕ) → IsForeign k (pos (suc (suc n))) (k.table j)
    foreign j q m = let (u, e, _, _) = v.live j q m in (u, e, absent q u e)

    nobody : killpg host (pos (suc (suc n))) (pos sig) k ≡ some (err esrch, k)
    nobody =
        rw (good, positive)
          (>>=-some (collect max_tasks (pos (suc (suc n))) 0 []) (signal_matches host sig) k k []
            (collect-foreign k (pos (suc (suc n))) max_tasks 0 [] foreign))
