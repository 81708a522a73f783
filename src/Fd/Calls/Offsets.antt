-- ===== src/Fd/Calls/Offsets.antt =====
-- read_write.c: what transfers leave of an entry, and descriptors without an entry.
use ixland.Prelude.{
  ℕ, ◌+◌, ◌≡◌, ◌≢◌, refl, true, false, List, [], ◌∷◌, none, ◌<◌, Bool-cases, inl, inr,
}
use ixland.Prelude.Int.{ℤ}
use ixland.Fd.Errno.{ebadf}
use ixland.Fd.Files.{Outcome, ok, err}
use ixland.Fd.Static.{max_fd, FdTable, get_fd_entry}
use ixland.Fd.Calls.{
  World, Host, is_out, is_standard, close_file, dup, read_file, write_file, lseek,
}

-- A read or a write, and what the host answers.
pub data Transfer : Type 0 where
  read write : (host : Host) → Transfer

abbrev pub run : ℤ → Transfer → FdTable → Outcome ℕ × FdTable
run fd (Transfer.read host) t = read_file host fd true t
run fd (Transfer.write host) t = write_file host fd true t

unfoldable pub run_all : ℤ → List Transfer → FdTable → FdTable
run_all fd [] t = t
run_all fd (x ∷ xs) t = run_all fd xs (run fd x t).1

abbrev pub count : Outcome ℕ → ℕ
count (err e) = 0
count (ok n) = n

abbrev host_of : Transfer → Host
host_of (Transfer.read host) = host
host_of (Transfer.write host) = host

-- The bytes that the host says it transferred, for one of its descriptors.
unfoldable pub total : ℤ → List Transfer → ℕ
total real [] = 0
total real (x ∷ xs) = count (host_of x real) + total real xs

-- The entry of a descriptor in use that is none of the standard ones.
abbrev pub IsOpen : ℕ → FdTable → Type 0
IsOpen i t = (2 < i) × (i < max_fd) × ((t.entries i).used ≡ true)

-- A table that differs from another in the offset of one entry at most.
abbrev pub Differs : ℕ → ℤ → FdTable → FdTable → Type 0
Differs i offset t u =
    ((u.entries i) ≡ (record (t.entries i) { offset = offset }))
    × ((j : ℕ) → j ≢ i → u.entries j ≡ t.entries j)

-- For a descriptor above 2 that has no entry, outside the table too, a read or a write with a buffer,
-- `lseek`, `close` and `dup` all fail with EBADF and change nothing.
no_entry_cases :
    (host : Host) (fd : ℤ) (w : World)
    → is_standard fd ≡ false
    → get_fd_entry fd w.table ≡ none
    → (read_file host fd true w.table ≡ (err ebadf, w.table))
      × (write_file host fd true w.table ≡ (err ebadf, w.table))
      × (lseek host fd w.table ≡ (err ebadf, w.table))
      × (close_file fd w ≡ (err ebadf, w))
      × (dup fd w.table ≡ err ebadf)
unfolding read_file write_file lseek close_file dup
no_entry_cases host fd w plain missing = elim (Bool-cases (is_out fd)) [
  | inl out ↦ (rw out refl, rw out refl, rw out refl, rw out refl, rw out refl)
  | inr inside ↦ (
    rw (inside, plain, missing) refl,
    rw (inside, plain, missing) refl,
    rw (inside, plain, missing) refl,
    rw (inside, plain, missing) refl,
    rw (inside, missing) refl,
  )
]
