-- ===== src/Kernel/Exit/Orphans.antt =====
-- exit.c: what becomes of the children of a task that ends.
use ixland.Prelude.{
  ◌≡◌, ◌≢◌, refl, ap, sym, fun_ext, ◌∙◌, ◌⊎◌, inl, inr, true, false, Option, none, some, List, [],
  ◌∷◌, ◌++◌, arith, ◌==◌, if◌then◌else◌, Bool-cases, ==_refl, ==_ne, has, IsDistinct,
}
use ixland.Prelude.Int.{ℤ}
use ixland.Fd.Files.{Ptr}
use ixland.Kernel.{Task, TaskState, Kernel, put_task, on_task, with_current-some}
use ixland.Kernel.Tasks.Table.{IsTask}
use ixland.Kernel.Wait.Walk.{AreLive}
use ixland.Kernel.Exit.{
  thread_exit, ended, each_child, to_init, follow, cleared, spliced, link_chain, link_to, adopt,
  reparent, notify_parent, notify, exit_as, exit, host_exit,
}

abbrev rewritten : (Task → Task) → Option Task → Option Task
rewritten f none = none
rewritten f (some t) = some (f t)

abbrev remapped : (Task → Task) → List Ptr → Kernel → Kernel
remapped f chain k = record k {
  tasks = λ q. if has q chain then rewritten f (k.tasks q) else k.tasks q;
}

-- The walk rewrites each task of a chain without repetition once, and no other.
each_child-remapped :
    (f : Task → Task) (chain : List Ptr) (k : Kernel)
    → IsDistinct chain
    → AreLive k.tasks chain
    → each_child f chain k ≡ some (remapped f chain k)
unfolding each_child
each_child-remapped f [] k distinct live = refl
each_child-remapped f (p ∷ chain) k distinct live =
    let (t, e) = live p (rw (==_refl p)) in
    rw (each_child, e)
      (each_child-remapped f chain (put_task p (some (f t)) k) distinct.1
          (λ q i. later t q i (Bool-cases (q == p)))
        ∙ ap (λ g. some (record k { tasks = g })) (fun_ext λ q. same t e q (Bool-cases (q == p))))
  where
    later :
        (t : Task) (q : Ptr)
        → has q chain ≡ true
        → ((q == p) ≡ true) ⊎ ((q == p) ≡ false)
        → (u : Task) × ((put_task p (some (f t)) k).tasks q ≡ some u)
    later t q i (inl c) = (f t, ground arith)
    later t q i (inr c) = let (u, e) = live q (ground arith) in (u, ground arith)

    same :
        (t : Task)
        → k.tasks p ≡ some t
        → (q : Ptr) → ((q == p) ≡ true) ⊎ ((q == p) ≡ false)
        → (remapped f chain (put_task p (some (f t)) k)).tasks q
          ≡ (remapped f (p ∷ chain) k).tasks q
    same t e q (inl c) =
        let here : q ≡ p = ground arith in
        let found : k.tasks q ≡ some t = ap k.tasks here ∙ e in
        let unlisted : has q chain ≡ false = ap (λ r. has r chain) here ∙ distinct.0 in
        rw unlisted (rw c (rw found refl))
    same t e q (inr c) = rw c refl

reparent-adopt :
    (p i : Ptr) (chain : List Ptr) (k : Kernel)
    → i ≢ p
    → chain ≢ []
    → reparent p chain (some i) k ≡ follow (adopt p chain i k) (k.tasks i)
unfolding reparent
reparent-adopt p i [] k ne full = absurd (full refl)
reparent-adopt p i (q ∷ chain) k ne full = rw (==_ne i p ne) refl

notify_parent-lives :
    (parent : Option Ptr) (k : Kernel)
    → ((r : Ptr) → parent ≡ some r → (u : Task) × IsTask k r u)
    → notify_parent parent k ≡ some (thread_exit, k)
notify_parent-lives none k live = refl
notify_parent-lives (some r) k live =
    let (u, e) = live r refl in ap (on_task (λ t l. some (thread_exit, l)) k) e

module _ (k : Kernel) (c i : Ptr) (t init : Task) (status : ℤ) (run : k.current ≡ some c)
    (booted : k.init_task ≡ some i) (e : IsTask k c t) (f : IsTask k i init) (ne : i ≢ c)
    (distinct : IsDistinct t.children) (live : AreLive k.tasks t.children)
    (not_own : has c t.children ≡ false) (not_init : has i t.children ≡ false) where
  -- The kernel after the children moved to `i`.
  abbrev moved : Kernel
  moved = remapped (to_init i init) t.children (put_task c (some (ended status t)) k)

  abbrev orphaned : Kernel
  orphaned =
      put_task c (some (record (ended status t) { children = [] }))
        (spliced i t.children moved init)

  moves : each_child (to_init i init) t.children (put_task c (some (ended status t)) k) ≡ some moved
  moves = each_child-remapped (to_init i init) t.children _ distinct λ q m.
      let (u, g) = live q m in
      (u, rw (==_ne q c (λ o. cc (ap (λ r. has r t.children) o, m, not_own))) g)

  init_stays : moved.tasks i ≡ some init
  init_stays = rw (not_init, ==_ne i c ne) f

  own_stays : (spliced i t.children moved init).tasks c ≡ some (ended status t)
  own_stays = rw (==_ne c i (λ o. ne (sym o)), not_own, ==_refl c) refl

  adopts : adopt c t.children i (put_task c (some (ended status t)) k) init ≡ some orphaned
  adopts =
      ap (link_to c t.children i) moves
      ∙ ap (follow (link_chain c t.children i moved)) init_stays
      ∙ ap (follow (cleared c (spliced i t.children moved init))) own_stays

  lives_on : (r : Ptr) (u : Task) → IsTask k r u → (w : Task) × IsTask orphaned r w
  lives_on r u g = at (Bool-cases (r == c)) (Bool-cases (r == i)) (Bool-cases (has r t.children))
    where
      at :
          ((r == c) ≡ true) ⊎ ((r == c) ≡ false)
          → ((r == i) ≡ true) ⊎ ((r == i) ≡ false)
          → (has r t.children ≡ true) ⊎ (has r t.children ≡ false)
          → (w : Task) × IsTask orphaned r w
      at (inl a) b d = (record (ended status t) { children = [] }, rw a refl)
      at (inr a) (inl b) d =
          (record init { children = t.children ++ init.children }, rw (a, b) refl)
      at (inr a) (inr b) (inl d) = (to_init i init u, rw (a, b, d, g) refl)
      at (inr a) (inr b) (inr d) = (u, rw (a, b, d) g)

  exit-orphaned :
      t.children ≢ []
      → ((r : Ptr) → t.parent ≡ some r → (u : Task) × IsTask k r u)
      → exit status k ≡ some (thread_exit, orphaned)
  unfolding exit exit_as
  exit-orphaned full parents =
      with_current-some (host_exit status) (exit_as status) k c t run e
      ∙ ap (notify c) (
          ap (λ o. reparent c t.children o (put_task c (some (ended status t)) k)) booted
          ∙ reparent-adopt c i t.children _ ne full
          ∙ ap (follow (adopt c t.children i (put_task c (some (ended status t)) k))) found
          ∙ adopts)
      ∙ ap (on_task (λ u l. notify_parent u.parent l) orphaned) own
      ∙ notify_parent-lives t.parent orphaned (λ r g. let (u, h) = parents r g in lives_on r u h)
    where
      found : (put_task c (some (ended status t)) k).tasks i ≡ some init
      found = rw (==_ne i c ne) f

      own : orphaned.tasks c ≡ some (record (ended status t) { children = [] })
      own = rw (==_refl c) refl

  -- The calling task has children, all live and different, and neither it nor init is one of them;
  -- init is another live task, and the task's parent, if it has one, is live. When the task ends it
  -- is a zombie with the given status and no children, its children come before those init had,
  -- each of them has init as its parent and init's number as the parent's number, and no other task
  -- changes.
  pub exit-orphans :
      t.children ≢ []
      → ((r : Ptr) → t.parent ≡ some r → (u : Task) × IsTask k r u)
      → (l : Kernel) × (exit status k ≡ some (thread_exit, l))
        × IsTask l c (record t {
          exit_status = status;
          exited = true;
          state = TaskState.zombie;
          children = [];
        })
        × IsTask l i (record init { children = t.children ++ init.children })
        × ((q : Ptr) (u : Task)
            → has q t.children ≡ true
            → IsTask k q u
            → IsTask l q (record u { parent = some i; ppid = init.pid }))
        × ((q : Ptr) → q ≢ c → q ≢ i → has q t.children ≡ false → l.tasks q ≡ k.tasks q)
  exit-orphans full parents = (
    orphaned,
    exit-orphaned full parents,
    rw (==_refl c) refl,
    rw (==_ne i c ne, ==_refl i) refl,
    (λ q u m g.
        rw
          (
            ==_ne q c (λ o. cc (ap (λ r. has r t.children) o, m, not_own)),
            ==_ne q i (λ o. cc (ap (λ r. has r t.children) o, m, not_init)),
            m,
            g,
          )
          refl),
    (λ q a b m. rw (==_ne q c a, ==_ne q i b, m) refl),
  )
