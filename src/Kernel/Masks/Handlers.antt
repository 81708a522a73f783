-- ===== src/Kernel/Masks/Handlers.antt =====
-- signal.c: what a task reads back of its handlers and its mask.
use ixland.Prelude.{
  ℕ, zero, suc, ◌+◌, ◌-◌, ◌<◌, ◌≡◌, refl, ap, ◌∙◌, ◌⊎◌, inl, inr, Bool, true, false, not, ◌&&◌,
  ◌||◌, Option, none, some, arith, ◌==◌, leb, ltb, if◌then◌else◌, Bool-cases, ==_refl,
}
use ixland.Prelude.Int.{pos}
use ixland.Fd.Errno.{esrch}
use ixland.Fd.Files.{Ptr, ok, err}
use ixland.Kernel.{Task, Action, Sighand, Kernel, put_task, update, with_current, with_current-some}
use ixland.Kernel.Tasks.Table.{IsTask}
use ixland.Kernel.Sigset.{nsig}
use ixland.Kernel.Delivery.{HostSignals}
use ixland.Kernel.Masks.{
  HostSet, is_catchable, on_sighand, install, sigaction, How, set_members, new_mask, change_mask,
  sigprocmask,
}

-- The loop over `rounds` signals from `i` up writes `value` at the members of `set` among them.
set_members-at :
    (rounds i : ℕ) (value : Bool) (set blocked : HostSet) (j : ℕ)
    → set_members rounds i value set blocked j
      ≡ (if leb i j && ltb j (i + rounds) && set j then value else blocked j)
unfolding set_members
set_members-at zero i value set blocked j = ground arith
set_members-at (suc rounds) i value set blocked j =
    set_members-at rounds (i + 1) value set (if set i then update blocked i value else blocked) j
    ∙ at (Bool-cases (j == i)) (Bool-cases (set i))
  where
    at :
        ((j == i) ≡ true) ⊎ ((j == i) ≡ false)
        → (set i ≡ true) ⊎ (set i ≡ false)
        → (if leb (i + 1) j && ltb j (i + 1 + rounds) && set j
            then value
            else (if set i then update blocked i value else blocked) j)
          ≡ (if leb i j && ltb j (i + suc rounds) && set j then value else blocked j)
    at (inl a) (inl b) =
        let here : j ≡ i = ground arith in
        let inside : set j ≡ true = ap set here ∙ b in rw (b, a, inside) (ground arith)
    at (inl a) (inr b) =
        let here : j ≡ i = ground arith in
        let outside : set j ≡ false = ap set here ∙ b in rw (b, outside) (ground arith)
    at (inr a) (inl b) = rw (b, a) (ground arith)
    at (inr a) (inr b) = rw b (ground arith)

-- The calling thread's task handles signals as `h` says.
pub record Handles (k : Kernel) (c : Ptr) (t : Task) (h : Sighand) : Type 0 where
  pub runs : k.current ≡ some c
  pub lives : IsTask k c t
  pub handles : t.sighand ≡ some h

with_sighand-some :
    {A : Type 0} (missing : A) (body : Ptr → Task → Sighand → Kernel → Option (A × Kernel))
    (k : Kernel) (c : Ptr) (t : Task) (h : Sighand)
    → Handles k c t h
    → with_current missing (on_sighand missing body) k ≡ body c t h k
with_sighand-some missing body k c t h v =
    with_current-some missing (on_sighand missing body) k c t v.runs v.lives ∙ rw (v.handles) refl

module _ (k : Kernel) (c : Ptr) (t : Task) (h : Sighand) (v : Handles k c t h) where
  abbrev handling : Sighand → Kernel
  handling n = put_task c (some (record t { sighand = some n })) k

  handling-Handles : (n : Sighand) → Handles (handling n) c (record t { sighand = some n }) n
  handling-Handles n = record { runs = v.runs; lives = rw (==_refl c) refl; handles = refl }

  -- For a calling task with handling state and a signal that may be caught, installing an action
  -- returns the old one. Asking afterwards gives the new action for that signal and the old ones
  -- for the others that may be caught, and changes nothing.
  sigaction-sigaction :
      (host : HostSignals) (sig : ℕ) (act : Action)
      → is_catchable host (pos sig) ≡ true
      → (l : Kernel) × (sigaction host (pos sig) (some act) k ≡ some (ok (h.action sig), l))
        × ((b : ℕ)
            → is_catchable host (pos b) ≡ true
            → sigaction host (pos b) none l ≡ some (ok (if b == sig then act else h.action b), l))
  unfolding sigaction
  sigaction-sigaction host sig act free = (
    handling new,
    rw free (with_sighand-some (err esrch) (install sig (some act)) k c t h v),
    λ b i. rw i (
        with_sighand-some (err esrch) (install b none) (handling new) c
          (record t { sighand = some new }) new (handling-Handles new)),
  )
    where
      new : Sighand
      new = record h { action = update h.action sig act }

  -- For a calling task with handling state, changing the mask with SIG_BLOCK or SIG_UNBLOCK returns
  -- the old one. Asking afterwards shows, for each signal 1 to 63, what the first adds and the
  -- second takes away.
  sigprocmask-sigprocmask :
      (set : HostSet) (ask : How)
      → (l m : Kernel) × (after before : HostSet) × (sigprocmask How.block (some set) k
          ≡ some (ok h.blocked, l))
        × (sigprocmask ask none l ≡ some (ok after, l))
        × (sigprocmask How.unblock (some set) k ≡ some (ok h.blocked, m))
        × (sigprocmask ask none m ≡ some (ok before, m))
        × ((j : ℕ)
            → 0 < j
            → j < nsig
            → (after j ≡ (set j || h.blocked j)) × (before j ≡ (h.blocked j && not (set j))))
  unfolding sigprocmask new_mask
  sigprocmask-sigprocmask set ask = (
    handling (masked true),
    handling (masked false),
    (masked true).blocked,
    (masked false).blocked,
    with_sighand-some (err esrch) (change_mask How.block (some set)) k c t h v,
    asked true,
    with_sighand-some (err esrch) (change_mask How.unblock (some set)) k c t h v,
    asked false,
    λ j a b. (
      set_members-at (nsig - 1) 1 true set h.blocked j ∙ ground arith,
      set_members-at (nsig - 1) 1 false set h.blocked j ∙ ground arith,
    ),
  )
    where
      masked : Bool → Sighand
      masked value = record h { blocked = set_members (nsig - 1) 1 value set h.blocked }

      asked :
          (value : Bool)
          → sigprocmask ask none (handling (masked value))
            ≡ some (ok (masked value).blocked, handling (masked value))
      asked value =
          with_sighand-some (err esrch) (change_mask ask none) (handling (masked value)) c
            (record t { sighand = some (masked value) }) (masked value)
            (handling-Handles (masked value))
