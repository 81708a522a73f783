-- ===== src/Kernel.antt =====
-- IXLandSystem/kernel: the virtual kernel's state, and commands that read and write it.
-- Locks make each modelled call one step. A command returns `none` where the C code has undefined
-- behaviour: it follows NULL or a freed pointer, or indexes an array out of its bounds.
pub mod Sigset
pub mod Tasks
pub mod Identity
pub mod Boot
pub mod Delivery
pub mod Masks
pub mod Wait
pub mod Exit
pub mod Fork
use ixland.Prelude.{
  ℕ, zero, suc, ◌+◌, ◌-◌, ◌%◌, Bool, true, false, Option, none, some, List, [], ◌∷◌, ◌++◌, ◌==◌,
  ◌≡◌, ap, ◌∙◌, if◌then◌else◌,
}
use ixland.Prelude.Int.{ℤ, pos, negsuc}
use ixland.Pid.{PidAllocator}
use ixland.Fd.Files.{Ptr, Files, FileHeap}

-- task.h: ixland_task_state_t.
pub data TaskState : Type 0 where
  running interruptible uninterruptible stopped zombie dead : TaskState

-- vfs.h: ixland_fs, less the lock, the count and the mount. Paths are lists of bytes.
pub record Fs : Type 0 where
  pub cwd : List ℕ
  pub root : List ℕ
  pub umask : ℕ

-- A `struct sigaction`: the handler's address (0 is SIG_DFL, 1 is SIG_IGN), its mask and flags.
pub record Action : Type 0 where
  pub handler : ℕ
  pub mask : ℕ → Bool
  pub flags : ℕ

-- signal.h: ixland_sighand. A host `sigset_t` is the set of its members.
pub record Sighand : Type 0 where
  pub action : ℕ → Action
  pub blocked : ℕ → Bool
  pub pending : ℕ → Bool

-- task.h: ixland_task. `children` is the chain through `next_sibling`; a task that was not linked
-- to a parent has NULL there. `nproc_limit` is `(int)rlimits[RLIMIT_NPROC].rlim_cur`. `signaled`
-- and the like are flags for wait.
pub record Task : Type 0 where
  pub pid : ℤ
  pub ppid : ℤ
  pub tgid : ℤ
  pub pgid : ℤ
  pub sid : ℤ
  pub state : TaskState
  pub exit_status : ℤ
  pub exited : Bool
  pub signaled : Bool
  pub termsig : ℕ
  pub is_stopped : Bool
  pub stopsig : ℕ
  pub continued : Bool
  pub files : Option Files
  pub fs : Option Fs
  pub sighand : Option Sighand
  pub tty : Option Ptr
  pub parent : Option Ptr
  pub children : List Ptr
  pub vfork_parent : Option Ptr
  pub waiters : ℕ
  pub nproc_limit : ℤ
  pub refs : ℕ

-- The global state. `table` is `task_table`, each bucket the chain through `hash_next`; `current`
-- is the calling thread's `current_task`; `booted` is the `pthread_once` flag of the first task.
pub record Kernel : Type 0 where
  pub tasks : Ptr → Option Task
  pub table : ℕ → List Ptr
  pub pids : PidAllocator
  pub file_heap : FileHeap
  pub tty_refs : Ptr → ℕ
  pub current : Option Ptr
  pub init_task : Option Ptr
  pub booted : Bool

abbrev pub Cmd : Type 0 → Type 0
Cmd A = Kernel → Option (A × Kernel)

abbrev pub pure : {A : Type 0} → A → Cmd A
pure a k = some (a, k)

infixl 5 ◌>>=◌ ◌>>◌
abbrev pub ◌>>=◌ : {A B : Type 0} → Cmd A → (A → Cmd B) → Cmd B
◌>>=◌ m f k = elim (m k) [ none ↦ none | some (a, k') ↦ f a k' ]

abbrev pub ◌>>◌ : {B : Type 0} → Cmd (Unit {0}) → Cmd B → Cmd B
m >> n = m >>= λ _. n

abbrev pub update {ℓ} : {A : Type ℓ} → (ℕ → A) → ℕ → A → ℕ → A
update f p a q = if q == p then a else f q

abbrev get : Cmd Kernel
get k = some (k, k)

-- `*p`, undefined at NULL and at a freed task.
abbrev pub load : Ptr → Cmd Task
load p k = elim (k.tasks p) [ none ↦ none | some t ↦ some (t, k) ]

abbrev pub put_task : Ptr → Option Task → Kernel → Kernel
put_task p c k = record k { tasks = update k.tasks p c }

abbrev pub store : Ptr → Task → Cmd (Unit {0})
store p t k = some (tt, put_task p (some t) k)

-- A command that returns hands its value and state on.
pub >>=-some :
    {A B : Type 0} (m : Cmd A) (f : A → Cmd B) (k l : Kernel) (a : A)
    → m k ≡ some (a, l)
    → (m >>= f) k ≡ f a l
>>=-some m f k l a e = rw (◌>>=◌, e)

module _ {ℓ} {A : Type ℓ} where
  abbrev pub on_task :
      (Task → Kernel → Option (A × Kernel)) → Kernel → Option Task → Option (A × Kernel)
  on_task body k none = none
  on_task body k (some t) = body t k

  abbrev pub on_current :
      A → (Ptr → Task → Kernel → Option (A × Kernel)) → Kernel → Option Ptr → Option (A × Kernel)
  on_current missing body k none = some (missing, k)
  on_current missing body k (some c) = on_task (body c) k (k.tasks c)

  -- The usual opening of a call: the calling thread's task, or a failure if it has none.
  abbrev pub with_current :
      A → (Ptr → Task → Kernel → Option (A × Kernel)) → Kernel → Option (A × Kernel)
  with_current missing body k = on_current missing body k k.current

  pub with_current-some :
      (missing : A) (body : Ptr → Task → Kernel → Option (A × Kernel)) (k : Kernel) (c : Ptr)
      (t : Task)
      → k.current ≡ some c
      → k.tasks c ≡ some t
      → with_current missing body k ≡ body c t k
  with_current-some missing body k c t e f =
      ap (on_current missing body k) e ∙ ap (on_task (body c) k) f

  with_current-none :
      (missing : A) (body : Ptr → Task → Kernel → Option (A × Kernel)) (k : Kernel)
      → k.current ≡ none
      → with_current missing body k ≡ some (missing, k)
  with_current-none missing body k e = ap (on_current missing body k) e
