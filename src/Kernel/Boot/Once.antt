-- ===== src/Kernel/Boot/Once.antt =====
-- task.c: the first task is made once.
use ixland.Prelude.{
  ◌≡◌, refl, ap, sym, ◌∙◌, ◌⊎◌, inl, inr, Bool, true, false, Option, none, some, Option-cases,
  Bool-cases,
}
use ixland.Kernel.{Kernel}
use ixland.Kernel.Boot.{BootMemory, task_init_once, completed, run_once, is_some, answer, task_init}

pub run_once-again : (m : BootMemory) (k : Kernel) → k.booted ≡ true → run_once m k ≡ some k
unfolding run_once
run_once-again m k b = rw b refl

run_once-first :
    (m : BootMemory) (k : Kernel) → k.booted ≡ false → run_once m k ≡ completed (task_init_once m k)
unfolding run_once
run_once-first m k b = rw b refl

abbrev is_booted : Option Kernel → Bool
is_booted none = true
is_booted (some k) = k.booted

completed-booted : (o : Option Kernel) → is_booted (completed o) ≡ true
completed-booted none = refl
completed-booted (some k) = refl

run_once-booted : (m : BootMemory) (k : Kernel) → is_booted (run_once m k) ≡ true
run_once-booted m k = elim (Bool-cases k.booted) [
  | inl b ↦ ap is_booted (run_once-again m k b) ∙ b
  | inr b ↦ ap is_booted (run_once-first m k b) ∙ completed-booted (task_init_once m k)
]

-- The first call of `task_init` settles the answer: every later call gives the same answer and
-- changes nothing, whatever memory there is by then.
task_init_settled :
    (m later : BootMemory) (k l : Kernel) (b : Bool)
    → task_init m k ≡ some (b, l)
    → task_init later l ≡ some (b, l)
unfolding task_init
task_init_settled m later k l b e = at (Option-cases (run_once m k))
  where
    at :
        (run_once m k ≡ none) ⊎ ((n : Kernel) × (run_once m k ≡ some n))
        → task_init later l ≡ some (b, l)
    at (inl f) = absurd (cc (ap answer f, e))
    at (inr (n, f)) =
        let both : some (is_some n.init_task, n) ≡ some (b, l) = sym (ap answer f) ∙ e in
        let kernels : n ≡ l = cc both in
        let booted : n.booted ≡ true = sym (ap is_booted f) ∙ run_once-booted m k in
        ap answer (run_once-again later l (ap (λ x. x.booted) (sym kernels) ∙ booted))
        ∙ ap (λ x. some (is_some x.init_task, x)) (sym kernels)
        ∙ both
