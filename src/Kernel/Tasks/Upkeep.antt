-- ===== src/Kernel/Tasks/Upkeep.antt =====
-- The operations keep the task table in order.
use ixland.Prelude.{
  ℕ, ◌+◌, ◌-◌, ◌%◌, ◌<◌, ◌≡◌, ◌≢◌, refl, ap, sym, fun_ext, ◌∙◌, ◌⊎◌, inl, inr, true, false, Option,
  none, some, ◌∷◌, arith, ◌==◌, lt→ltb, Bool-cases, ==_refl, ==_ne, has,
}
use ixland.Prelude.Int.{pos}
use ixland.Pid.{alloc_pid}
use ixland.Fd.Files.{Ptr}
use ixland.Kernel.{Task, Kernel, update, put_task}
use ixland.Kernel.Tasks.{max_tasks, task_hash, new_task, task_alloc, task_free}
use ixland.Kernel.Tasks.Table.{IsTask, IsTable, with_refs}

module _ (k : Kernel) (v : IsTable k) (p : Ptr) (t u : Task) (e : IsTask k p t) where
  -- A write that keeps the number and a positive count.
  pub put_task-IsTable : u.pid ≡ t.pid → 0 < u.refs → IsTable (put_task p (some u) k)
  put_task-IsTable same live = record {
    listed = λ q s f. listed q s f (Bool-cases (q == p));
    live = λ i q m. alive i q m (Bool-cases (q == p));
    unique = λ q r a b f g alike.
        let (a', f', old) = before q a f (Bool-cases (q == p)) in
        let (b', g', old') = before r b g (Bool-cases (r == p)) in
        v.unique q r a' b' f' g' (old ∙ alike ∙ sym old');
    chains = v.chains;
  }
    where
      before :
          (q : Ptr) (s : Task)
          → IsTask (put_task p (some u) k) q s
          → ((q == p) ≡ true) ⊎ ((q == p) ≡ false)
          → (w : Task) × IsTask k q w × (w.pid ≡ s.pid)
      before q s f (inl c) = (t, ground arith, ground arith)
      before q s f (inr c) = (s, ground arith, refl)

      listed :
          (q : Ptr) (s : Task)
          → IsTask (put_task p (some u) k) q s
          → ((q == p) ≡ true) ⊎ ((q == p) ≡ false)
          → (i : ℕ) × (task_hash s.pid ≡ some i) × (has q (k.table i) ≡ true)
      listed q s f (inl c) =
          let (i, at, m) = v.listed p t e in (i, ap task_hash (ground arith) ∙ at, ground arith)
      listed q s f (inr c) = v.listed q s (ground arith)

      alive :
          (i : ℕ) (q : Ptr)
          → has q (k.table i) ≡ true
          → ((q == p) ≡ true) ⊎ ((q == p) ≡ false)
          → (s : Task) × IsTask (put_task p (some u) k) q s
            × (task_hash s.pid ≡ some i)
            × (0 < s.refs)
      alive i q m (inl c) =
          let (s, f, at, _) = v.live i q m in
          (u, ground arith, ap task_hash (ground arith) ∙ at, live)
      alive i q m (inr c) = let (s, f, at, n) = v.live i q m in (s, ground arith, at, n)

-- What `task_free` does while other references are left: one less.
pub task_free-shared :
    (k : Kernel) (p : Ptr) (t : Task)
    → IsTask k p t
    → 1 < t.refs
    → task_free p k ≡ some (tt, put_task p (some (with_refs t (t.refs - 1))) k)
unfolding task_free
task_free-shared k p t e many = rw (task_free, e) (rw (lt→ltb 1 t.refs many))

pub put_task-put_task :
    (k : Kernel) (p : Ptr) (a b : Option Task) → put_task p b (put_task p a k) ≡ put_task p b k
put_task-put_task k p a b = ap (λ f. record k { tasks = f }) (fun_ext λ q. ground arith)

pub put_task_self : (k : Kernel) (p : Ptr) (a : Option Task) → k.tasks p ≡ a → put_task p a k ≡ k
put_task_self k p a e = ap (λ f. record k { tasks = f }) (fun_ext λ q. ground arith)

-- Dropping the reference that a lookup took restores the kernel.
pub task_free-retained :
    (k : Kernel) (p : Ptr) (t : Task)
    → IsTask k p t
    → 0 < t.refs
    → task_free p (put_task p (some (with_refs t (t.refs + 1))) k) ≡ some (tt, k)
task_free-retained k p t e live =
    task_free-shared _ p (with_refs t (t.refs + 1)) (rw (==_refl p)) (omega arith)
    ∙ ap (λ l. some (tt, l))
        (put_task-put_task k p _ _
          ∙ put_task_self k p _ (e ∙ ap (λ n. some (with_refs t n)) (omega arith)))

-- The kernel with the task `p` of number `n` at the head of its bucket.
abbrev pub inserted : Kernel → Ptr → ℕ → Kernel
inserted k p n = record k {
  tasks = update k.tasks p (some (new_task (pos n)));
  table = update k.table (n % max_tasks) (p ∷ k.table (n % max_tasks));
  pids = (alloc_pid k.pids).1;
}

pub task_alloc-inserted :
    (k : Kernel) (p : Ptr) (n : ℕ)
    → (alloc_pid k.pids).0 ≡ pos n
    → task_alloc (some p) k ≡ some (some p, inserted k p n)
unfolding task_alloc task_hash
task_alloc-inserted k p n num = rw (task_alloc, num) (rw num)

module _ (k : Kernel) (v : IsTable k) (p : Ptr) (n : ℕ) (free : k.tasks p ≡ none)
    (new : (q : Ptr) (t : Task) → IsTask k q t → t.pid ≢ pos n) where
  not_listed : (i : ℕ) → has p (k.table i) ≡ false
  not_listed i = out (Bool-cases (has p (k.table i)))
    where
      out : (has p (k.table i) ≡ true) ⊎ (has p (k.table i) ≡ false) → has p (k.table i) ≡ false
      out (inl m) = let (t, e, _, _) = v.live i p m in cc
      out (inr m) = m

  -- A new task at an unused place, with a number that no task has, keeps the table in order.
  pub inserted-IsTable : IsTable (inserted k p n)
  unfolding task_hash
  inserted-IsTable = record {
    listed = λ q s f. listed q s f (Bool-cases (q == p));
    live = λ i q m. alive i q m (Bool-cases (q == p)) (Bool-cases (i == n % max_tasks));
    unique =
        λ q r a b f g same. unique q r a b f g same (Bool-cases (q == p)) (Bool-cases (r == p));
    chains = λ i. ground (arith, v.chains i, not_listed i);
  }
    where
      listed :
          (q : Ptr) (s : Task)
          → IsTask (inserted k p n) q s
          → ((q == p) ≡ true) ⊎ ((q == p) ≡ false)
          → (i : ℕ) × (task_hash s.pid ≡ some i) × (has q ((inserted k p n).table i) ≡ true)
      listed q s f (inl c) =
          let number : s.pid ≡ pos n = ground arith in
          (n % max_tasks, ap task_hash number, ground arith)
      listed q s f (inr c) = let (i, at, m) = v.listed q s (ground arith) in (i, at, ground arith)

      alive :
          (i : ℕ) (q : Ptr)
          → has q ((inserted k p n).table i) ≡ true
          → ((q == p) ≡ true) ⊎ ((q == p) ≡ false)
          → ((i == n % max_tasks) ≡ true) ⊎ ((i == n % max_tasks) ≡ false)
          → (s : Task) × IsTask (inserted k p n) q s × (task_hash s.pid ≡ some i) × (0 < s.refs)
      alive i q m (inl c) (inl d) =
          (new_task (pos n), ground arith, ap some (ground arith), omega arith)
      alive i q m (inl c) (inr d) = absurd (ground (arith, not_listed i))
      alive i q m (inr c) d =
          let (s, f, at, some_refs) = v.live i q (ground arith) in (s, ground arith, at, some_refs)

      unique :
          (q r : Ptr) (a b : Task)
          → IsTask (inserted k p n) q a
          → IsTask (inserted k p n) r b
          → a.pid ≡ b.pid
          → ((q == p) ≡ true) ⊎ ((q == p) ≡ false)
          → ((r == p) ≡ true) ⊎ ((r == p) ≡ false)
          → q ≡ r
      unique q r a b f g same (inl c) (inl d) = ground arith
      unique q r a b f g same (inl c) (inr d) = absurd (new r b (ground arith) (ground arith))
      unique q r a b f g same (inr c) (inl d) = absurd (new q a (ground arith) (ground arith))
      unique q r a b f g same (inr c) (inr d) = v.unique q r a b (ground arith) (ground arith) same

  -- In a table in order, allocating a task at an unused place, with a number that no task has,
  -- succeeds; the task is there with that number, no other task changes, and the table stays in
  -- order.
  pub task_alloc-IsTable :
      (alloc_pid k.pids).0 ≡ pos n
      → (l : Kernel) × (task_alloc (some p) k ≡ some (some p, l))
        × IsTask l p (new_task (pos n))
        × ((q : Ptr) → q ≢ p → l.tasks q ≡ k.tasks q)
        × IsTable l
  task_alloc-IsTable number = (
    inserted k p n,
    task_alloc-inserted k p n number,
    rw (==_refl p) refl,
    (λ q other. rw (==_ne q p other) refl),
    inserted-IsTable,
  )
