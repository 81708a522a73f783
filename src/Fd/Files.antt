-- ===== src/Fd/Files.antt =====
-- IXLandSystem/fs/fdtable.c, first part: file objects with a reference count, and the descriptor
-- table `ixland_files` of a task. `malloc` is an argument: what a call returns, or its failure.
-- Pointers are addresses in an explicit heap; `none` as a result is an access to a freed object.
pub mod Counts
pub mod Table
use ixland.Prelude.{
  ℕ, zero, suc, ◌+◌, ◌-◌, Bool, true, false, Option, none, some, List, [], ◌∷◌, leb, ◌==◌,
  if◌then◌else◌, length, get_elem?, set, replicate,
}
use ixland.Prelude.Int.{ℤ, pos, negsuc}
use ixland.Fd.Errno.{Errno, einval, emfile, ebadf, enomem}

abbrev pub Ptr : Type 0
Ptr = ℕ

pub record File : Type 0 where
  pub fd : ℤ
  pub real_fd : ℤ
  pub flags : ℕ
  pub position : ℤ
  pub vfs_file : Option Ptr
  pub refs : ℕ

abbrev pub FileHeap : Type 0
FileHeap = Ptr → Option File

abbrev pub write : FileHeap → Ptr → Option File → FileHeap
write h p c q = if q == p then c else h q

-- The pointer array `fd`; its length is `max_fds`.
pub record Files : Type 0 where
  pub slots : List (Option Ptr)

abbrev max_fds : Files → ℕ
max_fds t = length t.slots

-- A call's result: a value, or -1 (or NULL) with `errno`.
pub data Outcome {ℓ} (A : Type ℓ) : Type ℓ where
  ok : A → Outcome A
  err : Errno → Outcome A

-- `memory` is what `calloc` returns for the new object.
file_alloc : Option Ptr → FileHeap → Option Ptr × FileHeap
file_alloc none h = (none, h)
file_alloc (some p) h = (some p, write h p (some zeroed))
  where
    zeroed : File
    zeroed = record {
      fd = pos 0;
      real_fd = pos 0;
      flags = 0;
      position = pos 0;
      vfs_file = none;
      refs = 1;
    }

abbrev pub drop_ref : File → Option File
drop_ref f = if f.refs == 1 then none else some (record f { refs = f.refs - 1 })

abbrev pub take_ref : File → File
take_ref f = record f { refs = f.refs + 1 }

unfoldable pub file_free : Option Ptr → FileHeap → Option FileHeap
file_free none h = some h
file_free (some p) h = elim (h p) [ none ↦ none | some f ↦ some (write h p (drop_ref f)) ]

unfoldable pub file_dup : Option Ptr → FileHeap → Option (Option Ptr × FileHeap)
file_dup none h = some (none, h)
file_dup (some p) h = elim (h p) [
  | none ↦ none
  | some f ↦ some (some p, write h p (some (take_ref f)))
]

-- The two flags say whether the two calls of `calloc` succeed.
unfoldable pub files_alloc : Bool → Bool → ℕ → Outcome Files
files_alloc false fd_memory n = err enomem
files_alloc true false n = err enomem
files_alloc true true n = ok (record { slots = replicate n none })

-- The loop of `ixland_files_free` over the slots.
unfoldable pub free_slots : List (Option Ptr) → FileHeap → Option FileHeap
free_slots [] h = some h
free_slots (slot ∷ slots) h = elim (file_free slot h) [
  | none ↦ none
  | some h' ↦ free_slots slots h'
]

unfoldable pub files_free : Option Files → FileHeap → Option FileHeap
files_free none h = some h
files_free (some t) h = free_slots t.slots h

-- The loop of `ixland_files_dup`: what the child's slots become. `ixland_file_dup` returns NULL for
-- NULL only, so the failure branch inside the loop is not reached.
unfoldable pub dup_slots : List (Option Ptr) → FileHeap → Option (List (Option Ptr) × FileHeap)
dup_slots [] h = some ([], h)
dup_slots (slot ∷ slots) h = elim (file_dup slot h) [
  | none ↦ none
  | some (copy, h') ↦ elim (dup_slots slots h') [
    | none ↦ none
    | some (copies, h'') ↦ some (copy ∷ copies, h'')
  ]
]

unfoldable pub files_dup : Bool → Bool → Option Files → FileHeap → Option (Outcome Files × FileHeap)
unfolding files_alloc
files_dup memory fd_memory none h = some (err einval, h)
files_dup memory fd_memory (some parent) h = elim (files_alloc memory fd_memory (max_fds parent)) [
  | err e ↦ some (err e, h)
  | ok child ↦ elim (dup_slots parent.slots h) [
    | none ↦ none
    | some (copies, h') ↦ some (ok (record { slots = copies }), h')
  ]
]

-- The first free slot, counted from `i`.
unfoldable pub first_free : List (Option Ptr) → ℕ → Option ℕ
first_free [] i = none
first_free (none ∷ slots) i = some i
first_free (some p ∷ slots) i = first_free slots (i + 1)

-- `ixland_fd_alloc`: the descriptor, or -1.
unfoldable fd_alloc :
    Option Files → Option Ptr → FileHeap → Option (Outcome ℕ × Option Files × FileHeap)
fd_alloc none file h = some (err einval, none, h)
fd_alloc (some t) none h = some (err einval, some t, h)
fd_alloc (some t) (some p) h = elim (first_free t.slots 0) [
  | none ↦ some (err emfile, some t, h)
  | some i ↦ elim (h p) [
    | none ↦ none
    | some f ↦
        some (ok i, some (record { slots = set t.slots i (some p) }), write h p (some (take_ref f)))
  ]
]

-- What `files->fd[fd]` holds; `none` for a descriptor outside the table.
abbrev slot_at : Files → ℤ → Option (Option Ptr)
slot_at t (negsuc n) = none
slot_at t (pos i) = get_elem? t.slots i

abbrev index_of : ℤ → ℕ
index_of (pos i) = i
index_of (negsuc n) = 0

unfoldable fd_free : Option Files → ℤ → FileHeap → Option (Outcome ℕ × Option Files × FileHeap)
fd_free none fd h = some (err ebadf, none, h)
fd_free (some t) fd h = elim (slot_at t fd) [
  | none ↦ some (err ebadf, some t, h)
  | some none ↦ some (err ebadf, some t, h)
  | some (some p) ↦ elim (file_free (some p) h) [
    | none ↦ none
    | some h' ↦ some (ok 0, some (record { slots = set t.slots (index_of fd) none }), h')
  ]
]

-- NULL with EBADF outside the table, and NULL with no `errno` at an empty slot.
unfoldable fd_lookup : Option Files → ℤ → FileHeap → Option (Outcome (Option Ptr) × FileHeap)
fd_lookup none fd h = some (err ebadf, h)
fd_lookup (some t) fd h = elim (slot_at t fd) [
  | none ↦ some (err ebadf, h)
  | some none ↦ some (ok none, h)
  | some (some p) ↦ elim (h p) [
    | none ↦ none
    | some f ↦ some (ok (some p), write h p (some (take_ref f)))
  ]
]
