-- ===== src/Pid/Trace.antt =====
-- Histories of calls of the allocator by callers that give back only what they hold.
use ixland.Prelude.{
  ℕ, ◌+◌, ◌≤◌, ◌<◌, ◌≡◌, ◌⊎◌, inl, inr, refl, ap, subst, ◌∙◌, true, false, arith, ◌==◌, Bool-cases,
  List, [], ◌∷◌, has, remove, IsDistinct, length, has-remove_self, has-remove_le, remove-IsDistinct,
  length-remove,
}
use ixland.Prelude.Int.{pos, negsuc}
use ixland.Pid.{
  min_pid, max_pid, pid_count, PidAllocator, fresh_allocator, pid_init, alloc_pid, push_pid,
  free_pid,
}
use ixland.Pid.Invariant.{
  Inv, IsFree, push_pid-Inv, pid_init-Inv, fresh_allocator-Inv, alloc_pid-Inv,
}
use ixland.Pid.Reuse.{
  Allocates, alloc_pid-Allocates, pid_init-initialized, pid_init_of, free_pid-push_pid,
  push_pid-initialized, push_pid-stack_top, push_pid-IsFree,
}

-- The identifiers in use after some calls, newest first, by a caller that gives back only what it
-- holds.
pub data Trace : PidAllocator → List ℕ → Type 0 where
  start : Trace fresh_allocator []
  allocated :
      {a : PidAllocator} {live : List ℕ} (b : PidAllocator) (p : ℕ)
      → Trace a live
      → alloc_pid a ≡ (pos p, b)
      → Trace b (p ∷ live)
  refused :
      {a : PidAllocator} {live : List ℕ} (b : PidAllocator) (n : ℕ)
      → Trace a live
      → alloc_pid a ≡ (negsuc n, b)
      → Trace b live
  freed :
      {a : PidAllocator} {live : List ℕ} (p : ℕ)
      → Trace a live
      → has p live ≡ true
      → Trace (free_pid a (pos p)) (remove p live)

-- Identifiers in use are pairwise different, of the range, and not free; with the free ones they
-- are all that there are.
pub record IsAccounted (a : PidAllocator) (live : List ℕ) : Type 0 where
  pub inv : Inv a
  pub apart : IsDistinct live
  pub in_use :
      (p : ℕ) → has p live ≡ true → (min_pid ≤ p) × (p ≤ max_pid) × (¬ IsFree (pid_init a) p)
  pub total : (pid_init a).stack_top + length live ≡ pid_count

start-IsAccounted : IsAccounted fresh_allocator []
unfolding pid_init
start-IsAccounted = record {
  inv = fresh_allocator-Inv;
  apart = tt;
  in_use = λ p h. cc;
  total = refl;
}

module _ {a : PidAllocator} {live : List ℕ} (acc : IsAccounted a live) where
  allocated-IsAccounted :
      (b : PidAllocator) (p : ℕ) → alloc_pid a ≡ (pos p, b) → IsAccounted b (p ∷ live)
  allocated-IsAccounted b p e = record {
    inv = subst (λ r. Inv r.1) e (alloc_pid-Inv a acc.inv);
    apart = (fresh (Bool-cases (has p live)), acc.apart);
    in_use = λ q h. rw same (old_or_new q h (Bool-cases (q == p)));
    total = rw same (omega (arith, acc.total, takes.4));
  }
    where
      takes : Allocates (pid_init a) (pos p, b)
      takes = subst (Allocates (pid_init a)) e (alloc_pid-Allocates a acc.inv)

      same : pid_init b ≡ b
      same = pid_init_of b (takes.5 ∙ pid_init-initialized a)

      fresh : (has p live ≡ true) ⊎ (has p live ≡ false) → has p live ≡ false
      fresh (inl h) = absurd ((acc.in_use p h).2 takes.0)
      fresh (inr h) = h

      old_or_new :
          (q : ℕ)
          → has q (p ∷ live) ≡ true
          → ((q == p) ≡ true) ⊎ ((q == p) ≡ false)
          → (min_pid ≤ q) × (q ≤ max_pid) × (¬ IsFree b q)
      old_or_new q h (inl i) =
          (ground (arith, takes), ground (arith, takes), λ f. ((takes.3 q).0 f).1 (ground arith))
      old_or_new q h (inr i) =
          let old = acc.in_use q (ground arith) in (old.0, old.1, λ f. old.2 ((takes.3 q).0 f).0)

  refused-IsAccounted :
      (b : PidAllocator) (n : ℕ) → alloc_pid a ≡ (negsuc n, b) → IsAccounted b live
  refused-IsAccounted b n e = rw fails.1 (record {
    inv = pid_init-Inv a acc.inv;
    apart = acc.apart;
    in_use = rw same acc.in_use;
    total = rw same acc.total;
  })
    where
      fails : Allocates (pid_init a) (negsuc n, b)
      fails = subst (Allocates (pid_init a)) e (alloc_pid-Allocates a acc.inv)

      same : pid_init (pid_init a) ≡ pid_init a
      same = pid_init_of (pid_init a) (pid_init-initialized a)

  freed-IsAccounted : (p : ℕ) → has p live ≡ true → IsAccounted (free_pid a (pos p)) (remove p live)
  freed-IsAccounted p h = rw (free_pid-push_pid a p held.0 held.1) (record {
    inv = push_pid-Inv (pid_init a) p (pid_init-Inv a acc.inv) held.0 held.1 held.2;
    apart = remove-IsDistinct p live acc.apart;
    in_use = λ q i.
        let old = acc.in_use q (has-remove_le q p live i) in
        (old.0, old.1, rw same (λ f. not_back q i old.2 (push_pid-IsFree (pid_init a) p q f)));
    total =
        rw same (
          omega (arith, acc.total, length-remove p live h, push_pid-stack_top (pid_init a) p room));
  })
    where
      held : (min_pid ≤ p) × (p ≤ max_pid) × (¬ IsFree (pid_init a) p)
      held = acc.in_use p h

      room : (pid_init a).stack_top < pid_count
      room = omega (arith, acc.total, length-remove p live h)

      same : pid_init (push_pid (pid_init a) p) ≡ push_pid (pid_init a) p
      same = pid_init_of _ (push_pid-initialized (pid_init a) p ∙ pid_init-initialized a)

      not_back :
          (q : ℕ)
          → has q (remove p live) ≡ true
          → ¬ IsFree (pid_init a) q
          → IsFree (pid_init a) q ⊎ (q ≡ p)
          → ⊥
      not_back q i out (inl f) = out f
      not_back q i out (inr e) =
          cc (has-remove_self p live acc.apart, ap (λ x. has x (remove p live)) e)

-- After any history of allocations and of releases of identifiers in use, those in use are pairwise
-- different, lie in the range and are not on the free stack, and with the free ones they make up
-- all 64536 identifiers.
pub Trace-IsAccounted : {a : PidAllocator} {live : List ℕ} → Trace a live → IsAccounted a live
Trace-IsAccounted start = start-IsAccounted
Trace-IsAccounted (allocated b p t e) = allocated-IsAccounted (Trace-IsAccounted t) b p e
Trace-IsAccounted (refused b n t e) = refused-IsAccounted (Trace-IsAccounted t) b n e
Trace-IsAccounted (freed p t h) = freed-IsAccounted (Trace-IsAccounted t) p h
