-- ===== src/Kernel/Masks/Woken.antt =====
-- signal.c: what wakes pause, and the mask after sigsuspend.
use ixland.Prelude.{
  ℕ, zero, suc, ◌+◌, ◌-◌, ◌≤◌, ◌<◌, ◌≡◌, ◌≢◌, refl, ap, ◌∙◌, true, false, Option, some, List, [],
  ◌∷◌, ◌==◌, Bool-cases, inl, inr, ==_refl, ==_ne, arith,
}
use ixland.Fd.Errno.{esrch, eintr}
use ixland.Fd.Files.{Ptr}
use ixland.Kernel.{Task, Sighand, Kernel, with_current-some, put_task}
use ixland.Kernel.Sigset.{nsig}
use ixland.Kernel.Masks.{HostSet}
use ixland.Kernel.Masks.Handlers.{Handles}
use ixland.Kernel.Masks.Sleeping.{
  failed, none_set, wait_once, counted, then_counted, pending_of, pause_loop, pause, block_now,
  ended, restored, woken, suspend_on, sigsuspend,
}

none_set-false :
    (n i j : ℕ) (set : HostSet) → i ≤ j → j < i + n → set j ≡ true → none_set n i set ≡ false
unfolding none_set
none_set-false zero i j set low high h = absurd (omega arith)
none_set-false (suc n) i j set low high h = elim (Bool-cases (j == i)) [
  | inl e ↦ let here : j ≡ i = ground arith in rw (← here, h) refl
  | inr e ↦ ground (arith, none_set-false n (suc i) j set)
]

pending_of-some :
    (t : Task) (h : Sighand) → t.sighand ≡ some h → pending_of (some t) ≡ some h.pending
pending_of-some t h e = rw e refl

counted-some :
    (c : Ptr) (f : ℕ → ℕ) (k : Kernel) (t : Task)
    → k.tasks c ≡ some t
    → counted c f k ≡ some (put_task c (some (record t { waiters = f t.waiters })) k)
counted-some c f k t e = rw (counted, e) refl

-- The task with another mask.
abbrev pub masked : HostSet → Task → Sighand → Task
masked mask t h = record t { sighand = some (record h { blocked = mask }) }

block_now-some :
    (c : Ptr) (mask : HostSet) (k : Kernel) (t : Task) (h : Sighand)
    → k.tasks c ≡ some t
    → t.sighand ≡ some h
    → block_now c mask k ≡ some (put_task c (some (masked mask t h)) k)
block_now-some c mask k t h e s = rw (block_now, e, s) refl

put_task-at : (c : Ptr) (t : Task) (k : Kernel) → (put_task c (some t) k).tasks c ≡ some t
put_task-at c t k = rw (==_refl c) refl

module _ (k : Kernel) (c : Ptr) (t : Task) (h : Sighand) (v : Handles k c t h) where
  pause_loop-pending :
      (others : List (Kernel → Kernel)) (sig : ℕ)
      → 0 < sig
      → sig < nsig
      → h.pending sig ≡ true
      → pause_loop c others k ≡ some (failed eintr, k)
  unfolding pause_loop
  pause_loop-pending [] sig low high p =
      rw
        (
          v.lives,
          pending_of-some t h v.handles,
          none_set-false (nsig - 1) 1 sig h.pending (omega arith) (omega arith) p,
        )
        refl
  pause_loop-pending (other ∷ others) sig low high p =
      rw
        (
          v.lives,
          pending_of-some t h v.handles,
          none_set-false (nsig - 1) 1 sig h.pending (omega arith) (omega arith) p,
        )
        refl

  -- With a signal pending, blocked or not, pause of a task with handling state does not wait: it fails
  -- with EINTR at once, and nothing changes.
  pause-pending :
      (others : List (Kernel → Kernel)) (sig : ℕ)
      → 0 < sig
      → sig < nsig
      → h.pending sig ≡ true
      → pause others k ≡ some (failed eintr, k)
  unfolding pause
  pause-pending others sig low high p =
      with_current-some (failed esrch) (λ c t. pause_loop c others) k c t v.runs v.lives
      ∙ pause_loop-pending others sig low high p

  -- The caller with another mask, counted as a waiter.
  abbrev pub suspended : HostSet → Kernel
  suspended mask =
      put_task c (some (record (masked mask t h) { waiters = t.waiters + 1 }))
        (put_task c (some (masked mask t h)) k)

  -- sigsuspend lets the other threads run with the given mask in place of the caller's; when it fails with
  -- EINTR, the caller has the mask that it had before and is no waiter any more, and the rest is as the
  -- others left it.
  pub sigsuspend-restores :
      (mask : HostSet) (other : Kernel → Kernel) (u : Task) (g : Sighand)
      → (other (suspended mask)).tasks c ≡ some u
      → u.sighand ≡ some g
      → (l : Kernel) × (sigsuspend (some mask) other k ≡ some (failed eintr, l))
        × (l.tasks c
            ≡ some (record u {
              sighand = some (record g { blocked = h.blocked });
              waiters = u.waiters - 1;
            }))
        × ((q : Ptr) → q ≢ c → l.tasks q ≡ (other (suspended mask)).tasks q)
  unfolding sigsuspend wait_once
  sigsuspend-restores mask other u g lives handles =
      let k1 = put_task c (some (masked mask t h)) k in
      let later = other (suspended mask) in
      let rested = record u { waiters = u.waiters - 1 } in
      let k3 = put_task c (some rested) later in
      let l = put_task c (some (masked h.blocked rested g)) k3 in
      let first = block_now-some c mask k t h v.lives v.handles in
      let up =
        counted-some c (λ n. n + 1) k1 (masked mask t h) (put_task-at c (masked mask t h) k) in
      let down = counted-some c (λ n. n - 1) later u lives in
      let last = block_now-some c h.blocked k3 rested g (put_task-at c rested later) handles in
      (
        l,
        with_current-some (failed esrch) (λ c t k. suspend_on (some mask) other c t.sighand k) k c t
              v.runs v.lives
            ∙ ap (λ (s : Option Sighand). suspend_on (some mask) other c s k) v.handles
            ∙ ap (woken c h.blocked other) first
            ∙ ap (λ (o : Option Kernel). restored c h.blocked (then_counted c (λ n. n - 1) other o))
                up
            ∙ ap (restored c h.blocked) down
            ∙ ap ended last,
        put_task-at c (masked h.blocked rested g) k3,
        λ q ne. rw (==_ne q c ne) refl,
      )
