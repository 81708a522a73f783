-- ===== src/Pid.antt =====
-- IXLandSystem/kernel/pid.c: the process identifiers, a stack of free numbers in an array with an
-- index of its top. The array is a function from the index; the mutex makes each call one step.
pub mod Invariant
pub mod Reuse
pub mod Trace
use ixland.Prelude.{ℕ, zero, suc, ◌+◌, ◌-◌, Bool, true, false, ltb, leb, ◌==◌, if◌then◌else◌, ◌||◌}
use ixland.Prelude.Int.{ℤ, pos, negsuc}

abbrev pub min_pid : ℕ
min_pid = 1000

abbrev pub max_pid : ℕ
max_pid = 65535

abbrev pub pid_count : ℕ
pid_count = max_pid - min_pid + 1

pub record PidAllocator : Type 0 where
  pub free_stack : ℕ → ℕ
  pub stack_top : ℕ
  pub initialized : Bool

-- The static variables of the file before any call.
abbrev pub fresh_allocator : PidAllocator
fresh_allocator = record { free_stack = λ _. 0; stack_top = 0; initialized = false }

abbrev pub store : (ℕ → ℕ) → ℕ → ℕ → ℕ → ℕ
store f i v j = if j == i then v else f j

-- The loop of `ixland_pid_init`: `rounds` identifiers, from `pid` down, to the slots from `idx` up.
unfoldable pub fill : ℕ → ℕ → ℕ → (ℕ → ℕ) → ℕ → ℕ
fill zero pid idx f = f
fill (suc rounds) pid idx f = fill rounds (pid - 1) (idx + 1) (store f idx pid)

unfoldable pub pid_init : PidAllocator → PidAllocator
pid_init a = if a.initialized then a else record a {
  free_stack = fill pid_count max_pid 0 a.free_stack;
  stack_top = pid_count;
  initialized = true;
}

-- The part of `alloc_pid` under the lock: -1 when the stack is empty.
unfoldable pub pop_pid : PidAllocator → ℤ × PidAllocator
pop_pid a =
    if a.stack_top == 0
    then (negsuc 0, a)
    else (pos (a.free_stack (a.stack_top - 1)), record a { stack_top = a.stack_top - 1 })

unfoldable pub alloc_pid : PidAllocator → ℤ × PidAllocator
alloc_pid a = pop_pid (pid_init a)

-- The part of `free_pid` under the lock.
unfoldable pub push_pid : PidAllocator → ℕ → PidAllocator
push_pid a pid =
    if leb pid_count a.stack_top
    then a
    else record a { free_stack = store a.free_stack a.stack_top pid; stack_top = a.stack_top + 1 }

unfoldable pub free_pid : PidAllocator → ℤ → PidAllocator
free_pid a (negsuc n) = a
free_pid a (pos pid) = if ltb pid min_pid || ltb max_pid pid then a else push_pid (pid_init a) pid
