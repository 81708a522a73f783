-- ===== src/Exec.antt =====
-- IXLandSystem/fs/exec.c: finding a program, and what an exec does to the task. The registry of native
-- commands, the file system and the native entries are arguments; so is whether memory is there.
pub mod Lookup
pub mod Search
pub mod Effects
pub mod Cloexec
use ixland.Prelude.{
  ℕ, zero, suc, ◌+◌, ◌-◌, Bool, true, false, ◌&&◌, ◌||◌, not, Option, none, some, List, [], ◌∷◌,
  ◌++◌, ◌==◌, ltb, leb, if◌then◌else◌, length,
}
use ixland.Prelude.Int.{ℤ, pos, negsuc}
use ixland.Prelude.Text.{Bytes, codes, take}
use ixland.Fd.Errno.{Errno, einval, enoent, efault, esrch, enomem, enoexec, enosys}
use ixland.Fd.Files.{Ptr, File, Files, FileHeap, Outcome, ok, err, write, drop_ref}
use ixland.Kernel.{Action, Sighand}
use ixland.Kernel.Sigset.{nsig}
use ixland.Path.{slash, max_path}

-- task.h: ixland_image_type_t and ixland_exec_image_t, less the fields of WASI and scripts.
pub data ImageType : Type 0 where
  unknown native wasi script : ImageType

pub record Image : Type 0 where
  pub kind : ImageType
  pub path : Bytes

-- The fields of ixland_task that an exec reads or writes.
pub record ExecTask : Type 0 where
  pub comm : Bytes
  pub exe : Bytes
  pub files : Option Files
  pub sighand : Option Sighand
  pub vfork_parent : Option Ptr
  pub exec_image : Option Image

-- The task, the file objects, and whether the parent of a vfork was notified.
pub record ExecState : Type 0 where
  pub task : ExecTask
  pub heap : FileHeap
  pub notified : Bool

-- `lookup` is ixland_native_lookup, `run` what an entry returns and leaves
-- when it is given the task; `access` is access(path, X_OK), with
-- its `errno` on failure; `head` the first four bytes at most of a file that open and read give.
pub record Programs : Type 0 where
  pub lookup : Bytes → Option ℕ
  pub run : ℕ → ExecState → ℤ × ExecState
  pub access : Bytes → Option Errno
  pub head : Bytes → Option Bytes

abbrev magic_type : Bytes → ImageType
magic_type [] = ImageType.unknown
magic_type (a ∷ []) = ImageType.unknown
magic_type (a ∷ b ∷ []) = if a == b'#' && b == b'!' then ImageType.script else ImageType.unknown
magic_type (a ∷ b ∷ c ∷ []) = if a == b'#' && b == b'!' then ImageType.script else ImageType.unknown
magic_type (a ∷ b ∷ c ∷ d ∷ rest) =
    if a == 0 && (b == 97 && (c == 115 && d == 109))
    then ImageType.wasi
    else if a == b'#' && b == b'!'
    then ImageType.script
    else ImageType.unknown

abbrev file_type : Option Bytes → ImageType
file_type none = ImageType.unknown
file_type (some bytes) = magic_type bytes

abbrev classify_as : Programs → Bytes → Option ℕ → ImageType
classify_as m path none = file_type (m.head path)
classify_as m path (some entry) = ImageType.native

unfoldable pub exec_classify : Programs → Bytes → ImageType
exec_classify m path = classify_as m path (m.lookup path)

-- The copy of an array of strings; the memory says whether calloc and each strdup succeed.
pub record Memory : Type 0 where
  pub array : Bool
  pub string : ℕ → Bool

unfoldable pub copy_strings : (ℕ → Bool) → ℕ → List Bytes → Option (List Bytes)
copy_strings string i [] = some []
copy_strings string i (s ∷ ss) =
    let rest = copy_strings string (i + 1) ss in
    if string i then (elim rest [ none ↦ none | some copies ↦ some (s ∷ copies) ]) else none

abbrev exec_copy : Memory → List Bytes → Option (List Bytes)
exec_copy memory argv = if memory.array then copy_strings memory.string 0 argv else none

abbrev pub before :
    Option Ptr → Option (List (Option Ptr) × FileHeap) → Option (List (Option Ptr) × FileHeap)
before slot none = none
before slot (some (rest, h)) = some (slot ∷ rest, h)

-- The loop of close_cloexec, with ixland_file_free of a file object that is there; `has_cloexec` tests for FD_CLOEXEC of the host's header.
unfoldable pub close_slots :
    (ℕ → Bool) → List (Option Ptr) → FileHeap → Option (List (Option Ptr) × FileHeap)
close_slots has_cloexec [] h = some ([], h)
close_slots has_cloexec (none ∷ slots) h = before none (close_slots has_cloexec slots h)
close_slots has_cloexec (some p ∷ slots) h = elim (h p) [
  | none ↦ none
  | some f ↦
      let kept = close_slots has_cloexec slots h in
      let freed = close_slots has_cloexec slots (write h p (drop_ref f)) in
      if has_cloexec f.flags then before none freed else before (some p) kept
]

-- `none`: a slot points to a file object that was freed. The result of the call is not looked at.
unfoldable pub close_cloexec :
    (ℕ → Bool) → Option Files → FileHeap → Option (Option Files × FileHeap)
close_cloexec has_cloexec none h = some (none, h)
close_cloexec has_cloexec (some t) h = elim (close_slots has_cloexec t.slots h) [
  | none ↦ none
  | some (slots, h') ↦ some (some (record { slots = slots }), h')
]

-- SIG_IGN is 1, SIG_DFL 0.
abbrev reset_action : Action → Action
reset_action a = if a.handler == 1 then a else record a { handler = 0 }

unfoldable pub reset_signals : Sighand → Sighand
reset_signals s = record {
  action = λ i. if ltb i nsig then reset_action (s.action i) else s.action i;
  blocked = λ i. false;
  pending = λ i. false;
}

abbrev pub reset_sighand : Option Sighand → Option Sighand
reset_sighand none = none
reset_sighand (some s) = some (reset_signals s)

unfoldable pub has_slash : Bytes → Bool
has_slash [] = false
has_slash (c ∷ s) = (c == slash) || has_slash s

-- The bytes after the last slash, or all.
unfoldable pub basename : Bytes → Bytes
basename [] = []
basename (c ∷ s) =
    let rest = basename s in
    let later = has_slash s in if later then rest else if c == slash then s else c ∷ s

abbrev max_name : ℕ
max_name = 256

abbrev name_of : Option (List Bytes) → Bytes → Bytes
name_of none path = basename path
name_of (some []) path = basename path
name_of (some (arg ∷ args)) path = arg

-- Where the program's kind does not run, after the task was changed.
abbrev pub run_image : Programs → Bytes → ImageType → ExecState → Outcome ℤ × ExecState
run_image m path ImageType.native s = run_native (m.lookup path)
  where
    run_native : Option ℕ → Outcome ℤ × ExecState
    run_native none = (err enoent, s)
    run_native (some entry) =
        let r = m.run entry (record s {
          task = record s.task {
            exec_image = some (record { kind = ImageType.native; path = take (max_path - 1) path });
          };
        }) in
        (ok r.0, r.1)
run_image m path ImageType.wasi s = (err enoexec, s)
run_image m path ImageType.script s = (err enoexec, s)
run_image m path ImageType.unknown s = (err enoexec, s)

abbrev with_image : Option Image → Image
with_image none = record { kind = ImageType.unknown; path = [] }
with_image (some image) = image

-- What an exec leaves of the task once its descriptors are closed.
abbrev pub changed : Bytes → Option (List Bytes) → ExecState → Option Files × FileHeap → ExecState
changed path argv s (files, heap) = record {
  task = record s.task {
    comm = take (max_name - 1) (name_of argv path);
    exe = take (max_path - 1) path;
    files = files;
    sighand = reset_sighand s.task.sighand;
    exec_image = some (with_image s.task.exec_image);
  };
  heap = heap;
  notified = elim s.task.vfork_parent [ none ↦ s.notified | some p ↦ true ];
}

abbrev pub go_on :
    Programs
    → (ℕ → Bool)
    → Bytes
    → Option (List Bytes)
    → ImageType
    → ExecState
    → Option (Outcome ℤ × ExecState)
go_on m has_cloexec path argv kind s = elim (close_cloexec has_cloexec s.task.files s.heap) [
  | none ↦ none
  | some closed ↦ some (run_image m path kind (changed path argv s closed))
]

-- The copies of the two arrays; `none` when one of them is not there.
abbrev pub copies : Memory → Option (List Bytes) → Option (Option (List Bytes))
copies memory none = some none
copies memory (some argv) = elim (exec_copy memory argv) [
  | none ↦ none
  | some copy ↦ some (some copy)
]

abbrev pub image_there : Option Image → Bool → Bool
image_there none memory = memory
image_there (some image) memory = true

abbrev pub with_copies :
    Programs
    → (ℕ → Bool)
    → Bytes
    → Bool
    → Option (Option (List Bytes))
    → Option (Option (List Bytes))
    → ImageType
    → ExecState
    → Option (Outcome ℤ × ExecState)
with_copies m has_cloexec path memory none envp kind s = some (err enomem, s)
with_copies m has_cloexec path memory (some argv) none kind s = some (err enomem, s)
with_copies m has_cloexec path memory (some argv) (some envp) kind s =
    if image_there s.task.exec_image memory
    then go_on m has_cloexec path argv kind s
    else some (err enomem, s)

abbrev pub find_type : Programs → Bytes → Option ℕ → Option Errno → Outcome ImageType
find_type m path (some entry) denied = ok ImageType.native
find_type m path none (some e) = err e
find_type m path none none = elim (exec_classify m path) [
  | ImageType.unknown ↦ err enoent
  | ImageType.native ↦ ok ImageType.native
  | ImageType.wasi ↦ ok ImageType.wasi
  | ImageType.script ↦ ok ImageType.script
]

-- The memory of the two copies and of the image.
pub record ExecMemory : Type 0 where
  pub argv : Memory
  pub envp : Memory
  pub image : Bool

abbrev pub exec_found :
    Programs
    → (ℕ → Bool)
    → ExecMemory
    → Bytes
    → Option (List Bytes)
    → Option (List Bytes)
    → Outcome ImageType
    → ExecState
    → Option (Outcome ℤ × ExecState)
exec_found m has_cloexec memory path argv envp (err e) s = some (err e, s)
exec_found m has_cloexec memory path argv envp (ok kind) s =
    with_copies m has_cloexec path memory.image (copies memory.argv argv) (copies memory.envp envp)
      kind s

-- `current` says whether the thread has a task. `none` is an access to a freed file object.
unfoldable pub execve :
    Programs
    → (ℕ → Bool)
    → ExecMemory
    → Bool
    → Option Bytes
    → Option (List Bytes)
    → Option (List Bytes)
    → ExecState
    → Option (Outcome ℤ × ExecState)
execve m has_cloexec memory current none argv envp s = some (err efault, s)
execve m has_cloexec memory current (some []) argv envp s = some (err enoent, s)
execve m has_cloexec memory current (some (c ∷ path)) argv envp s =
    if current
    then exec_found m has_cloexec memory (c ∷ path) argv envp
        (find_type m (c ∷ path) (m.lookup (c ∷ path)) (m.access (c ∷ path))) s
    else some (err esrch, s)
