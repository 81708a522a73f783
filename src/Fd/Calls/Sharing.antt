-- ===== src/Fd/Calls/Sharing.antt =====
-- open.c and fcntl.c: what opening, copying and closing leave in the table.
use ixland.Prelude.{
  ℕ, ◌≡◌, ◌≢◌, refl, ap, sym, ◌∙◌, Bool, true, false, ◌∷◌, arith, ◌==◌, Option, some, ltb, leb, ◌<◌,
  ◌⊎◌, Bool-cases, inl, inr, ==_refl, ==_ne,
}
use ixland.Prelude.Int.{ℤ, pos}
use ixland.Prelude.Text.{Bytes}
use ixland.Fd.Errno.{Errno, emfile}
use ixland.Fd.Files.{ok, err}
use ixland.Fd.Static.{
  max_fd, FdTable, Entry, zeroed, put_entry, free_fd, get_fd_entry, get_real_fd, init_fd_entry,
  clone_fd_entry,
}
use ixland.Fd.Static.Slots.{AreUsed, alloc_fd_cases}
use ixland.Fd.Calls.{World, open_file, open_entry, close_file, dup2, freed}

-- An entry above the standard ones that is not in use is of zero bytes.
abbrev pub IsClean : FdTable → Type 0
IsClean t = (i : ℕ) → 2 < i → i < max_fd → (t.entries i).used ≡ false → t.entries i ≡ zeroed

-- The same host descriptors were closed, and the entries are the same.
abbrev pub SameWorld : World → World → Type 0
SameWorld v w = ((i : ℕ) → v.table.entries i ≡ w.table.entries i) × (v.closed ≡ w.closed)

free_fd-used :
    (i : ℕ) (t : FdTable)
    → 2 < i
    → i < max_fd
    → (t.entries i).used ≡ true
    → free_fd (pos i) t ≡ put_entry t i zeroed
unfolding free_fd
free_fd-used i t above below used =
    let a : ltb 2 i ≡ true = ground arith in
    let b : ltb i max_fd ≡ true = ground arith in rw (a, b, used) refl

close_file-used :
    (i : ℕ) (w : World)
    → 2 < i
    → i < max_fd
    → (w.table.entries i).used ≡ true
    → close_file (pos i) w ≡ (
      ok 0,
      record { table = put_entry w.table i zeroed; closed = get_real_fd i w.table ∷ w.closed },
    )
unfolding close_file get_fd_entry
close_file-used i w above below used =
    let a : leb max_fd i ≡ false = ground arith in
    let b : leb i 2 ≡ false = ground arith in
    let c : ltb i max_fd ≡ true = ground arith in
    rw (a, b, c, used)
      (ap (λ t. (ok 0, record { table = t; closed = get_real_fd i w.table ∷ w.closed }))
        (free_fd-used i w.table above below used))

put_zeroed :
    (i : ℕ) (t l : FdTable)
    → t.entries i ≡ zeroed
    → ((j : ℕ) → j ≢ i → l.entries j ≡ t.entries j)
    → (j : ℕ) → (put_entry l i zeroed).entries j ≡ t.entries j
put_zeroed i t l z others j = elim (Bool-cases (j == i)) [
  | inl e ↦ let here : j ≡ i = ground arith in rw e (sym z ∙ ap t.entries (sym here))
  | inr e ↦ rw e (others j (ground arith))
]

-- In a clean table, opening fails with EMFILE and changes nothing when 3 to 255 are in use. Otherwise,
-- if the host opens the file, the result is a descriptor that closing makes free again: the entries are
-- as before, and the host's descriptor is closed. If the host fails, its error is the result, and the
-- entries are as before.
pub open_file_cases :
    (path : Bytes) (flags mode real : ℕ) (e : Errno) (directory : Option Bool) (w : World)
    → IsClean w.table
    → (AreUsed w.table.entries 3 max_fd
        × (open_file (some path) flags mode (ok real) directory w ≡ (err emfile, w))
        × (open_file (some path) flags mode (err e) directory w ≡ (err emfile, w)))
      ⊎ ((i : ℕ) × (v : World) × (u : World) × (f : World) × (open_file
              (some path)
              flags
              mode
              (ok real)
              directory
              w
            ≡ (ok i, v))
          × (close_file (pos i) v ≡ (ok 0, u))
          × SameWorld u (record w { closed = pos real ∷ w.closed })
          × (open_file (some path) flags mode (err e) directory w ≡ (err e, f))
          × SameWorld f w)
unfolding open_file init_fd_entry
open_file_cases path flags mode real e directory w clean = elim (alloc_fd_cases w.table) [
  | inl (full, q) ↦ inl (full, rw q refl, rw q refl)
  | inr (i, l, q, low, high, free, all, used, others) ↦
      let v = (open_entry (ok i, l) path flags mode (ok real) directory w.closed).1 in
      let z = clean i (omega arith) high free in
      inr (
        i,
        v,
        record { table = put_entry v.table i zeroed; closed = pos real ∷ w.closed },
        (open_entry (ok i, l) path flags mode (err e) directory w.closed).1,
        rw q refl,
        close_file-used i v (omega arith) high (rw (==_refl i) used)
            ∙ ap
                (λ (z : ℤ).
                  (ok 0, record { table = put_entry v.table i zeroed; closed = z ∷ w.closed }))
                (rw (get_real_fd, ==_refl i) refl),
        (put_zeroed i w.table v.table z (λ j ne. rw (==_ne j i ne) (others j ne)), refl),
        rw q refl,
        (
          λ j.
              ap (λ t. t.entries j) (free_fd-used i l (omega arith) high used)
              ∙ put_zeroed i w.table l z others j,
          refl,
        ),
      )
]

clone-real :
    (old new : ℕ) (t : FdTable) → (put_entry t new (t.entries old)).entries new ≡ t.entries old
clone-real old new t = rw (==_refl new) refl

-- With two different descriptors above 2 of the table, the first in use, `dup2` succeeds; both entries
-- then are the first one's and so stand for one descriptor of the host, which closing the second closes
-- while the first entry stays.
pub dup2-close_file :
    (old new : ℕ) (w : World)
    → 2 < old
    → old < max_fd
    → 2 < new
    → new < max_fd
    → old ≢ new
    → (w.table.entries old).used ≡ true
    → (v : World) × (u : World) × (dup2 (pos old) (pos new) w ≡ (ok (pos new), v))
      × (v.table.entries old ≡ w.table.entries old)
      × (v.table.entries new ≡ w.table.entries old)
      × (close_file (pos new) v ≡ (ok 0, u))
      × (u.closed ≡ get_real_fd old w.table ∷ v.closed)
      × (u.table.entries old ≡ w.table.entries old)
unfolding dup2 get_fd_entry clone_fd_entry
dup2-close_file old new w a b c d ne used = (
  v,
  u,
  rw (x, y, z, p, used) refl,
  rw (==_ne old new ne) kept,
  copied,
  close_file-used new v c d (ap (λ e. e.used) copied ∙ used),
  ap (λ (e : Entry). e.fd ∷ v.closed) copied,
  rw (==_ne old new ne) kept,
)
  where
    before : World
    before = freed (pos new) (get_fd_entry (pos new) w.table) w

    v : World
    v = record before { table = clone_fd_entry new old before.table }

    u : World
    u = record { table = put_entry v.table new zeroed; closed = get_real_fd new v.table ∷ v.closed }

    x : leb max_fd old ≡ false
    x = ground arith

    y : leb max_fd new ≡ false
    y = ground arith

    z : (old == new) ≡ false
    z = ==_ne old new ne

    p : ltb old max_fd ≡ true
    p = ground arith

    q : ltb new max_fd ≡ true
    q = ground arith

    kept : before.table.entries old ≡ w.table.entries old
    kept = elim (Bool-cases (w.table.entries new).used) [
      | inl e ↦
          rw (q, e)
            (ap (λ r. r.1.table.entries old) (close_file-used new w c d e)
              ∙ rw (==_ne old new ne) refl)
      | inr e ↦ rw (q, e) refl
    ]

    copied : v.table.entries new ≡ w.table.entries old
    copied = rw (==_refl new) kept
