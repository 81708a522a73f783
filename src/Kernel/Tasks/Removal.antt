-- ===== src/Kernel/Tasks/Removal.antt =====
-- Dropping the last reference of a task: it leaves the table, and its number is free again.
use ixland.Prelude.{
  ℕ, ◌<◌, ◌≡◌, ◌≢◌, refl, ap, sym, ◌∙◌, ◌⊎◌, inl, inr, true, false, none, some, arith, ◌==◌, ltb,
  Bool-cases, has, has-remove_ne, has-remove_self, has-remove_le, remove-IsDistinct,
}
use ixland.Pid.{free_pid}
use ixland.Fd.Files.{Ptr, FileHeap, files_free}
use ixland.Kernel.{Task, Kernel, update}
use ixland.Kernel.Tasks.{task_hash, unlink, release_tty, task_destroy, task_free}
use ixland.Kernel.Tasks.Table.{IsTask, IsTable}

-- The kernel without the task `p`, whose contents were `t`, after its table of descriptors left
-- the file objects as `h`.
abbrev pub without : Kernel → Ptr → Task → ℕ → FileHeap → Kernel
without k p t i h = record k {
  tasks = update k.tasks p none;
  table = update k.table i (unlink p (k.table i));
  pids = free_pid k.pids t.pid;
  file_heap = h;
  tty_refs = release_tty t.tty k.tty_refs;
}

-- What `task_free` does with the last reference.
pub task_free-without :
    (k : Kernel) (p : Ptr) (t : Task) (i : ℕ) (h : FileHeap)
    → k.tasks p ≡ some t
    → ltb 1 t.refs ≡ false
    → task_hash t.pid ≡ some i
    → files_free t.files k.file_heap ≡ some h
    → task_free p k ≡ some (tt, without k p t i h)
unfolding task_free task_destroy
task_free-without k p t i h e last at freed =
    rw (task_free, e) (rw (last, task_destroy, at) (rw freed refl))

module _ (k : Kernel) (v : IsTable k) (p : Ptr) (t : Task) (e : IsTask k p t) where
  bucket : ℕ
  bucket = (v.listed p t e).0

  -- The task is listed in one bucket only.
  elsewhere : (i : ℕ) → i ≢ bucket → has p (k.table i) ≡ false
  unfolding bucket
  elsewhere i other = out (Bool-cases (has p (k.table i)))
    where
      out : (has p (k.table i) ≡ true) ⊎ (has p (k.table i) ≡ false) → has p (k.table i) ≡ false
      out (inl m) =
          let (s, f, at, _) = v.live i p m in
          let both : some t ≡ some s = sym e ∙ f in
          let same : t.pid ≡ s.pid = cc in
          let there : i ≡ (v.listed p t e).0 = cc (ap task_hash same, (v.listed p t e).1) in
          absurd (other there)
      out (inr m) = m

  without-IsTable : (h : FileHeap) → IsTable (without k p t bucket h)
  without-IsTable h = record {
    listed = λ q s f.
        let ne : q ≢ p = ground arith in
        let (i, at, m) = v.listed q s (ground arith) in
        (i, at, ground (arith, has-remove_ne q p (k.table bucket) ne));
    live = λ i q m. alive i q m (Bool-cases (q == p)) (Bool-cases (i == bucket));
    unique = λ q r a b f g same. v.unique q r a b (ground arith) (ground arith) same;
    chains =
        λ i. ground (arith, v.chains i, remove-IsDistinct p (k.table bucket) (v.chains bucket));
  }
    where
      alive :
          (i : ℕ) (q : Ptr)
          → has q ((without k p t bucket h).table i) ≡ true
          → ((q == p) ≡ true) ⊎ ((q == p) ≡ false)
          → ((i == bucket) ≡ true) ⊎ ((i == bucket) ≡ false)
          → (s : Task) × IsTask (without k p t bucket h) q s
            × (task_hash s.pid ≡ some i)
            × (0 < s.refs)
      alive i q m (inl c) (inl d) =
          absurd (ground (arith, has-remove_self p (k.table bucket) (v.chains bucket)))
      alive i q m (inl c) (inr d) = absurd (ground (arith, elsewhere i (ground arith)))
      alive i q m (inr c) (inl d) =
          let (s, f, at, n) = v.live i q (ground (arith, has-remove_le q p (k.table bucket))) in
          (s, ground arith, at, n)
      alive i q m (inr c) (inr d) =
          let (s, f, at, n) = v.live i q (ground arith) in (s, ground arith, at, n)

  -- In a table in order, `task_free` with the last reference of a task whose descriptor table can
  -- be freed unlinks the task from its bucket, frees its descriptor table and gives its number
  -- back; the table stays in order.
  pub task_free-last :
      (h : FileHeap)
      → (1 < t.refs → ⊥)
      → files_free t.files k.file_heap ≡ some h
      → (i : ℕ) × (task_hash t.pid ≡ some i)
        × (task_free p k ≡ some (tt, without k p t i h))
        × IsTable (without k p t i h)
  unfolding bucket
  task_free-last h last freed =
      let at = (v.listed p t e).1 in
      (bucket, at, task_free-without k p t bucket h e not_many at freed, without-IsTable h)
    where
      not_many : ltb 1 t.refs ≡ false
      not_many = ground arith
