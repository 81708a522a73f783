-- ===== src/Pid/Invariant.antt =====
-- The free stack holds distinct identifiers of the range, and every operation keeps it so.
use ixland.Prelude.{
  ℕ, zero, suc, ◌+◌, ◌-◌, ◌≤◌, ◌<◌, ◌≡◌, inl, inr, refl, arith, ltb, leb, ◌==◌, ◌||◌, Bool-cases,
}
use ixland.Prelude.Int.{ℤ, pos, negsuc}
use ixland.Pid.{
  min_pid, max_pid, pid_count, PidAllocator, fresh_allocator, store, fill, pid_init, pop_pid,
  alloc_pid, push_pid, free_pid,
}

-- Slots are read below the top: in the range, and no identifier twice.
pub record Inv (a : PidAllocator) : Type 0 where
  pub bounded : a.stack_top ≤ pid_count
  pub in_range : (i : ℕ) → i < a.stack_top → (min_pid ≤ a.free_stack i) × (a.free_stack i ≤ max_pid)
  pub distinct :
      (i j : ℕ) → i < a.stack_top → j < a.stack_top → a.free_stack i ≡ a.free_stack j → i ≡ j

-- An identifier that the allocator may still hand out.
abbrev pub IsFree : PidAllocator → ℕ → Type 0
IsFree a pid = (i : ℕ) × (i < a.stack_top) × (a.free_stack i ≡ pid)

fill_below : (rounds pid idx : ℕ) (f : ℕ → ℕ) (i : ℕ) → i < idx → fill rounds pid idx f i ≡ f i
unfolding fill
fill_below zero pid idx f i h = refl
fill_below (suc rounds) pid idx f i h =
    ground (arith, fill_below rounds (pid - 1) (idx + 1) (store f idx pid) i (omega arith))

pub fill_at :
    (rounds pid idx : ℕ) (f : ℕ → ℕ) (j : ℕ)
    → idx ≤ j
    → j < idx + rounds
    → fill rounds pid idx f j ≡ pid - (j - idx)
unfolding fill
fill_at zero pid idx f j low high = absurd (omega arith)
fill_at (suc rounds) pid idx f j low high = elim (Bool-cases (j == idx)) [
  | inl e ↦ ground (arith, fill_below rounds (pid - 1) (idx + 1) (store f idx pid) j (ground arith))
  | inr e ↦
      ground
        (arith, fill_at rounds (pid - 1) (idx + 1) (store f idx pid) j (ground arith) (omega arith))
]

-- Once initialised, a second call changes nothing; the first fills the stack with all identifiers.
pub pid_init-Inv : (a : PidAllocator) → Inv a → Inv (pid_init a)
unfolding pid_init
pid_init-Inv a v = elim (Bool-cases a.initialized) [
  | inl e ↦ simp e v
  | inr e ↦ simp e (record {
    bounded = omega arith;
    in_range = λ i h.
        omega (arith, fill_at pid_count max_pid 0 a.free_stack i (omega arith) (omega arith));
    distinct = λ i j hi hj same. omega (
      arith,
      fill_at pid_count max_pid 0 a.free_stack i (omega arith) (omega arith),
      fill_at pid_count max_pid 0 a.free_stack j (omega arith) (omega arith),
      same,
    );
  })
]

pub fresh_allocator-Inv : Inv fresh_allocator
fresh_allocator-Inv = record {
  bounded = omega arith;
  in_range = λ i h. elim h [ ];
  distinct = λ i j hi hj same. elim hi [ ];
}

pop_pid-Inv : (a : PidAllocator) → Inv a → Inv (pop_pid a).1
unfolding pop_pid
pop_pid-Inv a v = elim (Bool-cases (a.stack_top == 0)) [
  | inl e ↦ simp e v
  | inr e ↦ simp e (record {
    bounded = omega (arith, v.bounded);
    in_range = λ i h. v.in_range i (omega arith);
    distinct = λ i j hi hj same. v.distinct i j (omega arith) (omega arith) same;
  })
]

pub alloc_pid-Inv : (a : PidAllocator) → Inv a → Inv (alloc_pid a).1
unfolding alloc_pid
alloc_pid-Inv a v = pop_pid-Inv (pid_init a) (pid_init-Inv a v)

-- Giving back an identifier that is not free keeps the stack duplicate-free.
pub push_pid-Inv :
    (a : PidAllocator) (pid : ℕ)
    → Inv a
    → min_pid ≤ pid
    → pid ≤ max_pid
    → ¬ IsFree a pid
    → Inv (push_pid a pid)
unfolding push_pid
push_pid-Inv a pid v low high taken = elim (Bool-cases (leb pid_count a.stack_top)) [
  | inl e ↦ simp e v
  | inr e ↦ simp e (record {
    bounded = ground arith;
    in_range = λ i h. ground (arith, v.in_range i);
    distinct = λ i j hi hj same. ground (
      arith,
      v.distinct i j,
      λ (h : i < a.stack_top) (e' : a.free_stack i ≡ pid). taken (i, h, e'),
      λ (h : j < a.stack_top) (e' : a.free_stack j ≡ pid). taken (j, h, e'),
    );
  })
]

-- `free_pid` of an identifier that is not free keeps the invariant, whatever number it is given.
free_pid-Inv :
    (a : PidAllocator) (pid : ℤ)
    → Inv a
    → ((n : ℕ) → pid ≡ pos n → ¬ IsFree (pid_init a) n)
    → Inv (free_pid a pid)
unfolding free_pid
free_pid-Inv a (negsuc n) v taken = v
free_pid-Inv a (pos n) v taken = elim (Bool-cases (ltb n min_pid || ltb max_pid n)) [
  | inl e ↦ simp e v
  | inr e ↦
      simp e (
        push_pid-Inv (pid_init a) n (pid_init-Inv a v) (ground arith) (ground arith) (taken n refl))
]
