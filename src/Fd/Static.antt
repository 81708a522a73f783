-- ===== src/Fd/Static.antt =====
-- IXLandSystem/fs/fdtable.c, second part: the descriptor table of the whole library, a static array
-- of entries. An entry's lock is held from `get_fd_entry` to `put_fd_entry`, so that what happens in
-- between is one step; a pointer to an entry is its index. Paths are lists of bytes.
pub mod Slots
use ixland.Prelude.{
  ℕ, zero, suc, ◌+◌, ◌-◌, Bool, true, false, Option, none, some, List, [], ◌∷◌, ◌==◌, ltb, leb,
  ◌&&◌, if◌then◌else◌,
}
use ixland.Prelude.Int.{ℤ, pos, negsuc}
use ixland.Fd.Errno.{emfile}
use ixland.Fd.Files.{Outcome, ok, err}

abbrev pub max_fd : ℕ
max_fd = 256

pub record Entry : Type 0 where
  pub fd : ℤ
  pub flags : ℕ
  pub mode : ℕ
  pub offset : ℤ
  pub path : List ℕ
  pub used : Bool
  pub is_dir : Bool

pub record FdTable : Type 0 where
  pub entries : ℕ → Entry
  pub initialized : Bool

-- An entry of zero bytes.
abbrev pub zeroed : Entry
zeroed = record {
  fd = pos 0;
  flags = 0;
  mode = 0;
  offset = pos 0;
  path = [];
  used = false;
  is_dir = false;
}

abbrev pub put_entry : FdTable → ℕ → Entry → FdTable
put_entry t i e = record t { entries = λ j. if j == i then e else t.entries j }

-- O_RDONLY and O_WRONLY of the host's <fcntl.h>.
pub record OpenFlags : Type 0 where
  pub rdonly : ℕ
  pub wronly : ℕ

abbrev pub standard : ℕ → ℕ → List ℕ → Entry
standard i flags name = record zeroed {
  fd = pos i;
  flags = flags;
  path = 47 ∷ 100 ∷ 101 ∷ 118 ∷ 47 ∷ 115 ∷ 116 ∷ 100 ∷ name;
  used = true;
}

-- "/dev/stdin", "/dev/stdout" and "/dev/stderr".
unfoldable pub file_init : OpenFlags → FdTable → FdTable
file_init o t =
    if t.initialized
    then t
    else put_entry
        (put_entry
          (put_entry (record { entries = λ j. zeroed; initialized = true }) 0
            (standard 0 o.rdonly (105 ∷ 110 ∷ [])))
          1 (standard 1 o.wronly (111 ∷ 117 ∷ 116 ∷ [])))
        2 (standard 2 o.wronly (101 ∷ 114 ∷ 114 ∷ []))

-- The loop of `alloc_fd`: the first entry not in use of the `rounds` from `i` up.
unfoldable pub first_unused : ℕ → ℕ → (ℕ → Entry) → Option ℕ
first_unused zero i entries = none
first_unused (suc rounds) i entries =
    let rest = first_unused rounds (i + 1) entries in if (entries i).used then rest else some i

abbrev pub claim : FdTable → Option ℕ → Outcome ℕ × FdTable
claim t none = (err emfile, t)
claim t (some i) =
    (ok i, put_entry t i (record (t.entries i) { used = true; fd = negsuc 0; offset = pos 0 }))

unfoldable pub alloc_fd : FdTable → Outcome ℕ × FdTable
alloc_fd t = claim t (first_unused (max_fd - 3) 3 t.entries)

-- The standard descriptors and those outside the array are left alone.
unfoldable pub free_fd : ℤ → FdTable → FdTable
free_fd (negsuc n) t = t
free_fd (pos i) t =
    if ltb 2 i && ltb i max_fd && (t.entries i).used then put_entry t i zeroed else t

-- The index of an entry in use, or NULL.
unfoldable pub get_fd_entry : ℤ → FdTable → Option ℕ
get_fd_entry (negsuc n) t = none
get_fd_entry (pos i) t = if ltb i max_fd && (t.entries i).used then some i else none

abbrev pub get_real_fd : ℕ → FdTable → ℤ
get_real_fd i t = (t.entries i).fd

abbrev pub get_fd_flags : ℕ → FdTable → ℕ
get_fd_flags i t = (t.entries i).flags

abbrev pub set_fd_flags : ℕ → ℕ → FdTable → FdTable
set_fd_flags i flags t = put_entry t i (record (t.entries i) { flags = flags })

abbrev pub get_fd_offset : ℕ → FdTable → ℤ
get_fd_offset i t = (t.entries i).offset

abbrev pub set_fd_offset : ℕ → ℤ → FdTable → FdTable
set_fd_offset i offset t = put_entry t i (record (t.entries i) { offset = offset })

-- The first `n` bytes of a path, as `strncpy` leaves them.
unfoldable pub copy_path : ℕ → List ℕ → List ℕ
copy_path zero l = []
copy_path (suc n) [] = []
copy_path (suc n) (b ∷ l) = b ∷ copy_path n l

-- `directory` is what `fstat` says of the host's descriptor, `none` if it fails. The caller's index
-- is in the array.
unfoldable pub init_fd_entry : ℕ → ℤ → ℕ → ℕ → List ℕ → Option Bool → FdTable → FdTable
init_fd_entry i real_fd flags mode path directory t = put_entry t i (record (t.entries i) {
  fd = real_fd;
  flags = flags;
  mode = mode;
  offset = pos 0;
  path = copy_path 4095 path;
  is_dir = elim directory [ none ↦ (t.entries i).is_dir | some d ↦ d ];
})

unfoldable pub clone_fd_entry : ℕ → ℕ → FdTable → FdTable
clone_fd_entry new old t = put_entry t new (t.entries old)
