-- ===== src/Pid/Reuse.antt =====
-- What a caller of the allocator sees: order of allocation, reuse, and no identifier twice.
use ixland.Prelude.{
  ℕ, ◌+◌, ◌-◌, ◌≤◌, ◌<◌, ◌≡◌, ◌≢◌, ◌↔◌, ◌⊎◌, inl, inr, refl, sym, ap, ◌∙◌, true, false, arith, ltb,
  leb, ◌==◌, ◌||◌, Bool-cases,
}
use ixland.Prelude.Int.{ℤ, pos, negsuc}
use ixland.Pid.{
  min_pid, max_pid, pid_count, PidAllocator, pid_init, pop_pid, alloc_pid, push_pid, free_pid,
}
use ixland.Pid.Invariant.{Inv, IsFree, pid_init-Inv}

-- An allocation either fails because nothing is free, or takes one free identifier and no other.
abbrev pub Allocates : PidAllocator → ℤ × PidAllocator → Type 0
Allocates a (negsuc n, b) = (n ≡ 0) × (b ≡ a) × (a.stack_top ≡ 0) × ((q : ℕ) → ¬ IsFree a q)
Allocates a (pos p, b) =
    IsFree a p
    × (min_pid ≤ p)
    × (p ≤ max_pid)
    × ((q : ℕ) → IsFree b q ↔ (IsFree a q × (q ≢ p)))
    × (b.stack_top + 1 ≡ a.stack_top)
    × (b.initialized ≡ a.initialized)

below_top : {i t : ℕ} → i < t → i ≢ t - 1 → i < t - 1
below_top h ne = omega arith

pop_pid-Allocates : (a : PidAllocator) → Inv a → Allocates a (pop_pid a)
unfolding pop_pid
pop_pid-Allocates a v = elim (Bool-cases (a.stack_top == 0)) [
  | inl e ↦ simp e (refl, refl, ground arith, λ q (i, h, _). ground arith)
  | inr e ↦
      let top : a.stack_top - 1 < a.stack_top = ground arith in
      simp e (
        (a.stack_top - 1, top, refl),
        (v.in_range _ top).0,
        (v.in_range _ top).1,
        λ q. (
          λ (i, h, s). (
            (i, omega arith, s),
            λ t. absurd (omega (arith, v.distinct i _ (omega arith) top (s ∙ t))),
          ),
          λ ((i, h, s), ne). (i, below_top h (λ t. ne (sym s ∙ ap a.free_stack t)), s),
        ),
        ground arith,
        refl,
      )
]

-- From a stack of distinct identifiers of the range, `alloc_pid` fails only when nothing is free;
-- otherwise it takes one free identifier of the range and leaves exactly the others free.
pub alloc_pid-Allocates : (a : PidAllocator) → Inv a → Allocates (pid_init a) (alloc_pid a)
unfolding alloc_pid
alloc_pid-Allocates a v = pop_pid-Allocates (pid_init a) (pid_init-Inv a v)

pub pid_init-initialized : (a : PidAllocator) → (pid_init a).initialized ≡ true
unfolding pid_init
pid_init-initialized a = ground arith

pub pid_init_of : (a : PidAllocator) → a.initialized ≡ true → pid_init a ≡ a
unfolding pid_init
pid_init_of a e = simp e

pop_pid-initialized : (a : PidAllocator) → (pop_pid a).1.initialized ≡ a.initialized
unfolding pop_pid
pop_pid-initialized a = ground arith

pop_pid-push_pid :
    (a : PidAllocator) (pid : ℕ)
    → a.stack_top < pid_count
    → ((pop_pid (push_pid a pid)).0 ≡ pos pid)
      × ((pop_pid (push_pid a pid)).1.stack_top ≡ a.stack_top)
      × ((i : ℕ) → i < a.stack_top → (pop_pid (push_pid a pid)).1.free_stack i ≡ a.free_stack i)
unfolding pop_pid push_pid
pop_pid-push_pid a pid room = (ground arith, ground arith, λ i h. ground arith)

in_range-passes : (n : ℕ) → min_pid ≤ n → n ≤ max_pid → (ltb n min_pid || ltb max_pid n) ≡ false
in_range-passes n low high = ground arith

pub push_pid-initialized :
    (a : PidAllocator) (pid : ℕ) → (push_pid a pid).initialized ≡ a.initialized
unfolding push_pid
push_pid-initialized a pid = ground arith

alloc_pid_of : (a : PidAllocator) → a.initialized ≡ true → alloc_pid a ≡ pop_pid a
unfolding alloc_pid
alloc_pid_of a e = ap pop_pid (pid_init_of a e)

pub push_pid-stack_top :
    (a : PidAllocator) (pid : ℕ)
    → a.stack_top < pid_count
    → (push_pid a pid).stack_top ≡ a.stack_top + 1
unfolding push_pid
push_pid-stack_top a pid room = ground arith

-- What is free after a push was free before, or is the identifier pushed.
pub push_pid-IsFree :
    (a : PidAllocator) (pid q : ℕ) → IsFree (push_pid a pid) q → IsFree a q ⊎ (q ≡ pid)
unfolding push_pid
push_pid-IsFree a pid q (i, h, e) = elim (Bool-cases (leb pid_count a.stack_top)) [
  | inl full ↦ inl (i, ground arith, ground arith)
  | inr room ↦ elim (Bool-cases (i == a.stack_top)) [
    | inl top ↦ inr (ground arith)
    | inr below ↦ inl (i, ground arith, ground arith)
  ]
]

pub free_pid-push_pid :
    (a : PidAllocator) (pid : ℕ)
    → min_pid ≤ pid
    → pid ≤ max_pid
    → free_pid a (pos pid) ≡ push_pid (pid_init a) pid
unfolding free_pid
free_pid-push_pid a pid low high = simp (in_range-passes pid low high)

free_pid_of :
    (a : PidAllocator) (pid : ℕ)
    → a.initialized ≡ true
    → min_pid ≤ pid
    → pid ≤ max_pid
    → free_pid a (pos pid) ≡ push_pid a pid
free_pid_of a pid e low high =
    free_pid-push_pid a pid low high ∙ ap (λ b. push_pid b pid) (pid_init_of a e)

alloc_pid-free_pid_eq :
    (a : PidAllocator) (pid : ℕ)
    → a.initialized ≡ true
    → min_pid ≤ pid
    → pid ≤ max_pid
    → alloc_pid (free_pid a (pos pid)) ≡ pop_pid (push_pid a pid)
alloc_pid-free_pid_eq a pid e low high =
    ap alloc_pid (free_pid_of a pid e low high)
    ∙ alloc_pid_of (push_pid a pid) (push_pid-initialized a pid ∙ e)

-- After the start, an identifier of the range that is given back while a slot is left is the next
-- one handed out, and the two calls leave the other free identifiers where they were.
alloc_pid-free_pid :
    (a : PidAllocator) (pid : ℕ)
    → a.initialized ≡ true
    → min_pid ≤ pid
    → pid ≤ max_pid
    → a.stack_top < pid_count
    → ((alloc_pid (free_pid a (pos pid))).0 ≡ pos pid)
      × ((alloc_pid (free_pid a (pos pid))).1.stack_top ≡ a.stack_top)
      × ((i : ℕ)
          → i < a.stack_top
          → (alloc_pid (free_pid a (pos pid))).1.free_stack i ≡ a.free_stack i)
alloc_pid-free_pid a pid e low high room =
    simp (alloc_pid-free_pid_eq a pid e low high) (pop_pid-push_pid a pid room)
