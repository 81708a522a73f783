-- ===== src/Kernel/Delivery/Kill.antt =====
-- kill on one task: who is signalled, and that nobody else is.
use ixland.Prelude.{
  ℕ, suc, ◌+◌, ◌-◌, ◌<◌, ◌≡◌, ◌≢◌, refl, ap, sym, subst, ◌∙◌, ◌⊎◌, inl, inr, true, false, Option,
  none, some, arith, ◌==◌, leb, if◌then◌else◌, Bool-cases, ==_refl,
}
use ixland.Prelude.Int.{pos}
use ixland.Fd.Errno.{esrch}
use ixland.Fd.Files.{Ptr, ok, err}
use ixland.Kernel.{Task, Sighand, Kernel, pure, ◌>>◌, >>=-some, put_task}
use ixland.Kernel.Sigset.{nsig}
use ixland.Kernel.Tasks.{task_free, task_lookup, task_hash}
use ixland.Kernel.Tasks.Table.{
  IsTask, IsTable, with_refs, refs_pos, task_lookup-found, task_lookup-missing,
}
use ixland.Kernel.Tasks.Upkeep.{task_free-shared, task_free-retained, put_task-put_task}
use ixland.Kernel.Delivery.{
  HostSignals, signal_effects, is_visible, touch, apply_signal, signal_target, kill_checked, kill,
}
use ixland.Kernel.Delivery.Effects.{signal_effects-with_refs, signal_effects-IsSameTask}

-- The pointer to the parent is NULL or to a live task.
abbrev pub HasLiveParent : Kernel → Task → Type 0
HasLiveParent k t = (q : Ptr) → t.parent ≡ some q → (u : Task) × IsTask k q u

touch-some :
    (k : Kernel) (o : Option Ptr)
    → ((q : Ptr) → o ≡ some q → (u : Task) × IsTask k q u)
    → touch o k ≡ some (tt, k)
touch-some k none live = refl
touch-some k (some q) live = let (u, e) = live q refl in rw (touch, e)

-- A write to a live task keeps every pointer to a live task good.
HasLiveParent-put_task :
    (k : Kernel) (p : Ptr) (t u : Task)
    → HasLiveParent k t
    → HasLiveParent (put_task p (some u) k) t
HasLiveParent-put_task k p t u live q e = elim (Bool-cases (q == p)) [
  | inl c ↦ (u, rw c)
  | inr c ↦ let (s, f) = live q e in (s, rw c f)
]

apply_signal-effects :
    (host : HostSignals) (k : Kernel) (p : Ptr) (t : Task) (h : Sighand) (sig : ℕ)
    → IsTask k p t
    → t.sighand ≡ some h
    → HasLiveParent k t
    → apply_signal host p sig k ≡ some (tt, put_task p (some (signal_effects host sig h t)) k)
unfolding apply_signal signal_effects
apply_signal-effects host k p t h sig e s live =
    rw (apply_signal, e)
      (rw (apply_signal, s)
        (announced (Bool-cases (is_visible host sig (signal_effects host sig h t)))))
  where
    t' : Task
    t' = signal_effects host sig h t

    same_parent : t'.parent ≡ t.parent
    same_parent = (signal_effects-IsSameTask host sig h t).parent

    announced :
        (is_visible host sig t' ≡ true) ⊎ (is_visible host sig t' ≡ false)
        → (if is_visible host sig t' then touch t'.parent else pure tt) (put_task p (some t') k)
          ≡ some (tt, put_task p (some t') k)
    announced (inl v) = rw v (
        touch-some (put_task p (some t') k) t'.parent
          (λ q f. HasLiveParent-put_task k p t t' live q (sym same_parent ∙ f)))
    announced (inr v) = rw v

-- Delivering to a task that the call references, and dropping the reference.
signal_held :
    (host : HostSignals) (k : Kernel) (p : Ptr) (t : Task) (h : Sighand) (sig : ℕ)
    → IsTask k p t
    → 0 < t.refs
    → t.sighand ≡ some h
    → HasLiveParent k t
    → (apply_signal host p sig >> (task_free p >> pure (ok (pos 0))))
        (put_task p (some (with_refs t (t.refs + 1))) k)
      ≡ some (ok (pos 0), put_task p (some (signal_effects host sig h t)) k)
signal_held host k p t h sig e some_refs s live =
    >>=-some (apply_signal host p sig) _ _ _ tt applied ∙ >>=-some (task_free p) _ _ _ tt freed
  where
    held : Task
    held = with_refs t (t.refs + 1)

    after : Task
    after = with_refs (signal_effects host sig h t) (t.refs + 1)

    same : (signal_effects host sig h t).refs ≡ t.refs
    same = (signal_effects-IsSameTask host sig h t).refs

    applied :
        apply_signal host p sig (put_task p (some held) k)
        ≡ some (tt, put_task p (some after) (put_task p (some held) k))
    applied =
        apply_signal-effects host (put_task p (some held) k) p held h sig (rw (==_refl p)) s
          (HasLiveParent-put_task k p held held live)
        ∙ ap (λ u. some (tt, put_task p (some u) (put_task p (some held) k)))
            (signal_effects-with_refs host sig h t (t.refs + 1))

    back : t.refs + 1 - 1 ≡ (signal_effects host sig h t).refs
    back = omega (arith, same)

    freed :
        task_free p (put_task p (some after) (put_task p (some held) k))
        ≡ some (tt, put_task p (some (signal_effects host sig h t)) k)
    freed =
        task_free-shared (put_task p (some after) (put_task p (some held) k)) p after
          (rw (==_refl p)) (omega arith)
        ∙ ap (λ l. some (tt, l))
            (put_task-put_task (put_task p (some held) k) p _ _
              ∙ put_task-put_task k p _ _
              ∙ ap (λ n. put_task p (some (with_refs (signal_effects host sig h t) n)) k) back)

good_signal : (sig : ℕ) → sig < nsig → leb nsig sig ≡ false
good_signal sig h = ground arith

-- In a table in order, kill with the number of a task that has handling state and no parent or a
-- live one, and a signal 1 to 63, does to that task what the signal does, and leaves every other
-- task, and the references, as they were.
pub kill-signal_effects :
    (host : HostSignals) (k : Kernel) (p : Ptr) (t : Task) (h : Sighand) (n sig : ℕ)
    → IsTable k
    → IsTask k p t
    → t.pid ≡ pos (suc n)
    → t.sighand ≡ some h
    → HasLiveParent k t
    → 0 < sig
    → sig < nsig
    → kill host (pos (suc n)) (pos sig) k
      ≡ some (ok (pos 0), put_task p (some (signal_effects host sig h t)) k)
unfolding kill kill_checked signal_target
kill-signal_effects host k p t h n sig v e num s live low high = rw (good_signal sig high) (
    >>=-some (task_lookup (pos (suc n))) _ k (put_task p (some (with_refs t (t.refs + 1))) k)
      (some p) found
    ∙ rw nonzero (signal_held host k p t h sig e (refs_pos k v p t e) s live))
  where
    found :
        task_lookup (pos (suc n)) k ≡ some (some p, put_task p (some (with_refs t (t.refs + 1))) k)
    found =
        subst (λ m. task_lookup m k ≡ some (some p, put_task p (some (with_refs t (t.refs + 1))) k))
          num (task_lookup-found k v p t e)

    nonzero : (sig == 0) ≡ false
    nonzero = ground arith

-- kill with signal 0 changes nothing: it succeeds if the task exists.
kill-probe :
    (host : HostSignals) (k : Kernel) (p : Ptr) (t : Task) (n : ℕ)
    → IsTable k
    → IsTask k p t
    → t.pid ≡ pos (suc n)
    → kill host (pos (suc n)) (pos 0) k ≡ some (ok (pos 0), k)
unfolding kill kill_checked signal_target
kill-probe host k p t n v e num =
    >>=-some (task_lookup (pos (suc n))) _ k (put_task p (some (with_refs t (t.refs + 1))) k)
      (some p)
      (subst (λ m. task_lookup m k ≡ some (some p, put_task p (some (with_refs t (t.refs + 1))) k))
        num (task_lookup-found k v p t e))
    ∙ >>=-some (task_free p) _ _ k tt (task_free-retained k p t e (refs_pos k v p t e))

-- In a table in order, kill with the positive number of no task fails with ESRCH, whatever the
-- signal 0 to 63, and nothing changes.
kill-missing :
    (host : HostSignals) (k : Kernel) (n sig : ℕ)
    → IsTable k
    → ((p : Ptr) (t : Task) → IsTask k p t → t.pid ≢ pos (suc n))
    → sig < nsig
    → kill host (pos (suc n)) (pos sig) k ≡ some (err esrch, k)
unfolding kill kill_checked signal_target task_hash
kill-missing host k n sig v absent high = rw (good_signal sig high) (
    >>=-some (task_lookup (pos (suc n))) _ k k none
      (task_lookup-missing k v (pos (suc n)) _ refl absent))

-- A task that was created without a `sighand`, as every child of fork is, cannot be signalled: the
-- code follows the NULL pointer.
apply_signal-fault :
    (host : HostSignals) (k : Kernel) (p : Ptr) (t : Task) (sig : ℕ)
    → IsTask k p t
    → t.sighand ≡ none
    → apply_signal host p sig k ≡ none
unfolding apply_signal
apply_signal-fault host k p t sig e s = rw (apply_signal, e) (rw (apply_signal, s))
