-- ===== src/Kernel/Boot/Stopped.antt =====
-- init.c: a library that was stopped does not start again.
use ixland.Prelude.{
  ◌≡◌, refl, ap, sym, ◌∙◌, inl, inr, Bool, true, false, Option, none, some, Option-cases,
  Bool-cases, ==_refl, ltb, arith, subst,
}
use ixland.Fd.Files.{Ptr}
use ixland.Kernel.{Kernel, Task}
use ixland.Kernel.Tasks.{task_free, task_destroy, task_hash}
use ixland.Fd.Files.{files_free}
use ixland.Kernel.Boot.{BootMemory, is_some, task_init}
use ixland.Kernel.Boot.Once.{run_once-again}
use ixland.Kernel.Boot.Library.{
  Library, forget_first, deinit_first, task_deinit, library_init, stopped, library_deinit, init,
}

task_destroy-booted :
    (p : Ptr) (t : Task) (k l : Kernel)
    → task_destroy p t k ≡ some (tt, l)
    → (l.booted ≡ k.booted) × (l.tasks p ≡ none) × (l.current ≡ k.current)
unfolding task_destroy
task_destroy-booted p t k l h = elim (Option-cases (task_hash t.pid)) [
  | inl e ↦ cc (rw (e, task_destroy) at h)
  | inr (i, e) ↦ elim (Option-cases (files_free t.files k.file_heap)) [
    | inl f ↦ cc (rw (e, f, task_destroy) at h)
    | inr (g, f) ↦ ground (arith, rw (e, f, task_destroy) at h, ==_refl p)
  ]
]

task_free-booted : (p : Ptr) (k l : Kernel) → task_free p k ≡ some (tt, l) → l.booted ≡ k.booted
unfolding task_free
task_free-booted p k l h = elim (Option-cases (k.tasks p)) [
  | inl e ↦ cc (rw (e, task_free) at h)
  | inr (t, e) ↦ elim (Bool-cases (ltb 1 t.refs)) [
    | inl f ↦ ground (arith, rw (e, f, task_free) at h)
    | inr f ↦ (task_destroy-booted p t k l (rw (e, f, task_free) at h)).0
  ]
]

abbrev is_up : Option Kernel → Bool
is_up none = false
is_up (some k) = is_some k.init_task

abbrev was_booted : Option Kernel → Bool
was_booted none = true
was_booted (some k) = k.booted

forget_first-settled :
    (p : Ptr) (k l : Kernel) (r : Option (Unit {0} × Kernel))
    → task_free p k ≡ r
    → forget_first r ≡ some l
    → (l.booted ≡ k.booted) × (is_some l.init_task ≡ false)
forget_first-settled p k l none e h = cc
forget_first-settled p k l (some (u, m)) e h =
    let same : some (record m { init_task = none }) ≡ some l = h in
    (ap was_booted (sym same) ∙ task_free-booted p k m e, ap is_up (sym same))

deinit_first-settled :
    (k l : Kernel) (o : Option Ptr)
    → k.init_task ≡ o
    → deinit_first k o ≡ some l
    → (l.booted ≡ k.booted) × (is_some l.init_task ≡ false)
deinit_first-settled k l none e h = (ap was_booted (sym h), ap is_up (sym h) ∙ ap is_some e)
deinit_first-settled k l (some p) e h = forget_first-settled p k l (task_free p k) refl h

-- A kernel that was stopped has no first task, and pthread_once has run its course.
task_deinit-settled :
    (k l : Kernel) → task_deinit k ≡ some l → (l.booted ≡ k.booted) × (is_some l.init_task ≡ false)
unfolding task_deinit
task_deinit-settled k l h = deinit_first-settled k l k.init_task refl h

-- A kernel without a first task whose pthread_once has run.
init-settled :
    (m : BootMemory) (k : Kernel)
    → k.booted ≡ true
    → is_some k.init_task ≡ false
    → init m (record { initialized = false; kernel = k })
      ≡ some (false, record { initialized = false; kernel = k })
unfolding init library_init task_init
init-settled m k b n = rw (run_once-again m k b, n) refl

stopped-init :
    (m : BootMemory) (k : Kernel) (r : Option Kernel) (after : Library)
    → k.booted ≡ true
    → task_deinit k ≡ r
    → stopped r ≡ some after
    → init m after ≡ some (false, after)
stopped-init m k none after b e h = cc
stopped-init m k (some l) after b e h =
    let (booted, settled) = task_deinit-settled k l e in
    let same : record { initialized = false; kernel = l } ≡ after = cc h in
    subst (λ (o : Library). init m o ≡ some (false, o)) same (init-settled m l (booted ∙ b) settled)

-- Once a library that was initialised is stopped, ixland_init fails for good: pthread_once does not make
-- the first task again, whatever memory there is, and the library stays as it is.
pub init-after_deinit :
    (m : BootMemory) (l after : Library)
    → l.initialized ≡ true
    → l.kernel.booted ≡ true
    → library_deinit l ≡ some after
    → init m after ≡ some (false, after)
unfolding library_deinit
init-after_deinit m l after up booted h =
    stopped-init m l.kernel (task_deinit l.kernel) after booted refl (rw up at h)
