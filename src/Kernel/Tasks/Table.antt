-- ===== src/Kernel/Tasks/Table.antt =====
-- The task table: every live task hangs in the bucket of its number, and lookup finds it there.
use ixland.Prelude.{
  ℕ, ◌+◌, ◌<◌, ◌≡◌, ◌≢◌, refl, ap, sym, ◌∙◌, ◌⊎◌, inl, inr, true, false, Option, none, some, List,
  [], ◌∷◌, arith, ◌==◌, Bool-cases, ==_refl, has, IsDistinct,
}
use ixland.Prelude.Int.{ℤ, eqb, eqb_iff, eqb_refl}
use ixland.Fd.Files.{Ptr}
use ixland.Kernel.{Task, Kernel, put_task}
use ixland.Kernel.Tasks.{task_hash, find_pid, retained, task_lookup}

abbrev pub with_refs : Task → ℕ → Task
with_refs t n = record t { refs = n }

-- A live task with the given contents.
abbrev pub IsTask : Kernel → Ptr → Task → Type 0
IsTask k p t = k.tasks p ≡ some t

pub record IsTable (k : Kernel) : Type 0 where
  pub listed :
      (p : Ptr) (t : Task)
      → IsTask k p t
      → (i : ℕ) × (task_hash t.pid ≡ some i) × (has p (k.table i) ≡ true)
  pub live :
      (i : ℕ) (p : Ptr)
      → has p (k.table i) ≡ true
      → (t : Task) × IsTask k p t × (task_hash t.pid ≡ some i) × (0 < t.refs)
  pub unique : (p q : Ptr) (t u : Task) → IsTask k p t → IsTask k q u → t.pid ≡ u.pid → p ≡ q
  pub chains : (i : ℕ) → IsDistinct (k.table i)

-- A walk along a chain of live tasks that holds the task with the number stops there.
find_pid-mem :
    (tasks : Ptr → Option Task) (p : Ptr) (t : Task) (chain : List Ptr)
    → tasks p ≡ some t
    → ((q : Ptr) → has q chain ≡ true → (u : Task) × (tasks q ≡ some u))
    → ((q : Ptr) (u : Task) → tasks q ≡ some u → t.pid ≡ u.pid → p ≡ q)
    → has p chain ≡ true
    → find_pid tasks t.pid chain ≡ some (some p)
unfolding find_pid
find_pid-mem tasks p t [] e live one h = cc
find_pid-mem tasks p t (q ∷ chain) e live one h =
    let (u, eq) = live q (ground arith) in
    elim (Bool-cases (eqb u.pid t.pid)) [
      | inl same ↦
          let here : p ≡ q = one q u eq (sym ((eqb_iff u.pid t.pid).0 same)) in
          rw (find_pid, eq) (rw same (ap (λ r. some (some r)) (sym here)))
      | inr other ↦
          rw (find_pid, eq)
            (rw other (
              find_pid-mem tasks p t chain e (λ r i. live r (ground arith)) one
                (later u eq other (Bool-cases (p == q)))))
    ]
  where
    later :
        (u : Task)
        → tasks q ≡ some u
        → eqb u.pid t.pid ≡ false
        → ((p == q) ≡ true) ⊎ ((p == q) ≡ false)
        → has p chain ≡ true
    later u eq other (inl i) =
        let here : p ≡ q = ground arith in
        let both : some t ≡ some u = sym e ∙ ap tasks here ∙ eq in
        let alike : t.pid ≡ u.pid = cc in cc (eqb_refl u.pid, ap (eqb u.pid) alike)
    later u eq other (inr i) = ground arith

find_pid-none :
    (tasks : Ptr → Option Task) (pid : ℤ) (chain : List Ptr)
    → ((q : Ptr) → has q chain ≡ true → (u : Task) × (tasks q ≡ some u) × (u.pid ≢ pid))
    → find_pid tasks pid chain ≡ some none
unfolding find_pid
find_pid-none tasks pid [] live = refl
find_pid-none tasks pid (q ∷ chain) live =
    let (u, eq, ne) = live q (rw (==_refl q)) in
    elim (Bool-cases (eqb u.pid pid)) [
      | inl same ↦ absurd (ne ((eqb_iff u.pid pid).0 same))
      | inr other ↦
          rw (find_pid, eq)
            (rw other (find_pid-none tasks pid chain (λ r i. live r (ground arith))))
    ]

module _ (k : Kernel) (v : IsTable k) where
  -- In a table in order, a task is found by its number and gains one reference; nothing else
  -- changes.
  pub task_lookup-found :
      (p : Ptr) (t : Task)
      → IsTask k p t
      → task_lookup t.pid k ≡ some (some p, put_task p (some (with_refs t (t.refs + 1))) k)
  unfolding task_lookup
  task_lookup-found p t e =
      let (i, at, mem) = v.listed p t e in
      let walk =
        find_pid-mem k.tasks p t (k.table i) e (λ q m. let (u, f, _, _) = v.live i q m in (u, f))
          (λ q u f same. v.unique p q t u e f same) mem in
      rw (task_lookup, at) (rw (task_lookup, walk) (rw (retained, e)))

  -- In a table in order, a number with a bucket that no task has is not found, and nothing changes.
  pub task_lookup-missing :
      (pid : ℤ) (i : ℕ)
      → task_hash pid ≡ some i
      → ((p : Ptr) (t : Task) → IsTask k p t → t.pid ≢ pid)
      → task_lookup pid k ≡ some (none, k)
  unfolding task_lookup
  task_lookup-missing pid i at absent =
      let walk =
        find_pid-none k.tasks pid (k.table i)
          (λ q m. let (u, f, _, _) = v.live i q m in (u, f, absent q u f)) in
      rw (task_lookup, at) (rw (task_lookup, walk))

  -- A task of the table has at least one reference.
  pub refs_pos : (p : Ptr) (t : Task) → IsTask k p t → 0 < t.refs
  refs_pos p t e =
      let (i, at, mem) = v.listed p t e in
      let (s, f, _, live) = v.live i p mem in ground (arith, e, f, live)
