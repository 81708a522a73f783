-- ===== src/Wasi/Files.antt =====
-- ixland_wamr.c: descriptors of a WebAssembly program.
use Prim.Native.Nat.{bit_or}
use ixland.Prelude.{
  ◌++◌, ℕ, zero, suc, ◌+◌, ◌-◌, ◌≤◌, ◌<◌, ◌≡◌, ◌≢◌, refl, ap, ◌∙◌, true, false, not, ◌&&◌, none,
  some, List, ◌∷◌, ◌==◌, ltb, if◌then◌else◌, ==_refl, ==_ne, Bool-cases, ◌⊎◌, inl, inr, arith,
}
use ixland.Prelude.Int.{ℤ, pos, negsuc, is_neg}
use ixland.Prelude.Text.{drop, Bytes}
use ixland.Prelude.Bits.{bit_and-zero}
use ixland.Fd.Files.{Outcome, ok}
use ixland.Wasi.{
  strncpy, WasiErrno, done, fail, FdEntry, Table, wasi_max_fd, put_entry, close_one, close_from,
  wamr_deinit, real_of, Iov, write_all, fd_write, closed_entry, fd_close,
}
use ixland.Wasi.Opening.{
  copied, OpenFlags, Asked, or_if, creation_flags, native_flags, c_string, first_free, path_open,
}

first_free-some :
    (n i : ℕ) (f : ℕ → FdEntry) (k : ℕ)
    → first_free n i f ≡ some k
    → (i ≤ k) × (k < i + n) × (is_neg (f k).real_fd ≡ true)
unfolding first_free
first_free-some zero i f k h = cc
first_free-some (suc n) i f k h = elim (Bool-cases (is_neg (f i).real_fd)) [
  | inl free ↦ let here : i ≡ k = ground arith in (omega arith, omega arith, rw (← here) free)
  | inr taken ↦
      let rest : first_free n (suc i) f ≡ some k = ground arith in
      let (low, high, free) = first_free-some n (suc i) f k rest in (omega arith, omega arith, free)
]

first_free-lowest :
    (n i : ℕ) (f : ℕ → FdEntry) (k j : ℕ)
    → first_free n i f ≡ some k
    → i ≤ j
    → j < k
    → is_neg (f j).real_fd ≡ false
unfolding first_free
first_free-lowest zero i f k j h low high = cc
first_free-lowest (suc n) i f k j h low high = elim (Bool-cases (is_neg (f i).real_fd)) [
  | inl free ↦ let here : i ≡ k = ground arith in absurd (omega arith)
  | inr taken ↦ elim (Bool-cases (j == i)) [
    | inl e ↦ let here : j ≡ i = ground arith in rw here taken
    | inr e ↦ first_free-lowest n (suc i) f k j (ground arith) (ground arith) high
  ]
]

-- What fd_close leaves of an entry.
abbrev freed : FdEntry → FdEntry
freed e = record e { real_fd = negsuc 0; wasi_fd = negsuc 0 }

fd_close-open :
    (close : ℤ → Outcome ℕ) (u : Table) (i real n : ℕ)
    → i < wasi_max_fd
    → (u.entries i).real_fd ≡ pos real
    → close (pos real) ≡ ok n
    → fd_close close (pos i) u
      ≡ (done tt, record (put_entry u i (freed (u.entries i))) { closed = pos real ∷ u.closed })
unfolding fd_close
fd_close-open close u i real n low here closed =
    let top : ltb i wasi_max_fd ≡ true = ground arith in
    let answer : close (u.entries i).real_fd ≡ ok n = ap close here ∙ closed in
    let live : is_neg (u.entries i).real_fd ≡ false = ap is_neg here in
    rw (top, live)
      (ap (closed_entry i u) answer
        ∙ ap
            (λ (f : ℤ).
              (done tt, record (put_entry u i (freed (u.entries i))) { closed = f ∷ u.closed }))
            here)

-- The first free number is found.
first_free-at :
    (n k i : ℕ) (entries : ℕ → FdEntry)
    → k ≤ i
    → i < k + n
    → is_neg (entries i).real_fd ≡ true
    → ((j : ℕ) → k ≤ j → j < i → is_neg (entries j).real_fd ≡ false)
    → first_free n k entries ≡ some i
unfolding first_free
first_free-at zero k i entries low high free taken = absurd (omega arith)
first_free-at (suc n) k i entries low high free taken = elim (Bool-cases (k == i)) [
  | inl e ↦ let here : k ≡ i = ground arith in rw (here, free) refl
  | inr e ↦
      let less : k < i = ground arith in
      rw (taken k (omega arith) less) (
        first_free-at n (suc k) i entries less (omega arith) free
          (λ j a b. taken j (omega arith) b))
]

-- path_open with the host's descriptor `real` gives the lowest free number from 3 up, which then stands for
-- `real`. When the program closes the number and the host's close succeeds, `real` is closed, and nothing is
-- left of the file but its path in the entry, whose two numbers are -1; every other entry is as it was.
pub fd_close-path_open :
    (o : OpenFlags) (vfs_open : Bytes → ℕ → Outcome ℕ) (close : ℤ → Outcome ℕ) (memory : Bytes)
    (path_len : ℕ) (a : Asked) (t : Table) (real i n : ℕ)
    → vfs_open (c_string memory) (native_flags o a) ≡ ok real
    → 3 ≤ i
    → i < wasi_max_fd
    → is_neg (t.entries i).real_fd ≡ true
    → ((j : ℕ) → 3 ≤ j → j < i → is_neg (t.entries j).real_fd ≡ false)
    → close (pos real) ≡ ok n
    → (u v : Table) × (path_open true true o vfs_open memory path_len a t ≡ (done i, u))
      × (real_of u (pos i) ≡ pos real)
      × (fd_close close (pos i) u ≡ (done tt, v))
      × (v.closed ≡ pos real ∷ t.closed)
      × ((j : ℕ)
          → v.entries j ≡ (
              if j == i
              then record (t.entries i) {
                real_fd = negsuc 0;
                wasi_fd = negsuc 0;
                path = strncpy 1023 (c_string memory) ++ drop 1023 (t.entries i).path;
              }
              else t.entries j))
unfolding path_open real_of
fd_close-path_open o vfs_open close memory path_len a t real i n made low high is_free taken
      closed =
    let free = first_free-at (wasi_max_fd - 3) 3 i t.entries low (omega arith) is_free taken in
    let self = ==_refl i in
    let top : ltb i wasi_max_fd ≡ true = ground arith in
    let u = put_entry t i (record (t.entries i) {
      real_fd = pos real;
      wasi_fd = pos i;
      path = copied (c_string memory) (t.entries i).path;
    }) in
    (
      u,
      record (put_entry u i (freed (u.entries i))) { closed = pos real ∷ u.closed },
      rw (made, free) refl,
      rw (top, self) refl,
      fd_close-open close u i real n high (rw self refl) closed,
      refl,
      λ j. ground (arith, self),
    )

-- With no free number path_open fails with EMFILE, and the host's descriptor that it made is closed again.
path_open-full :
    (o : OpenFlags) (vfs_open : Bytes → ℕ → Outcome ℕ) (memory : Bytes) (path_len : ℕ) (a : Asked)
    (t : Table) (real : ℕ)
    → vfs_open (c_string memory) (native_flags o a) ≡ ok real
    → first_free (wasi_max_fd - 3) 3 t.entries ≡ none
    → path_open true true o vfs_open memory path_len a t
      ≡ (fail WasiErrno.emfile, record t { closed = pos real ∷ t.closed })
unfolding path_open
path_open-full o vfs_open memory path_len a t real made full = rw (made, full) refl

-- A number that stands for nothing in the table is used as the host's: fd_write of a program writes to the
-- host's descriptor of that number, whoever opened it.
fd_write-unmapped :
    (fd : ℕ) (iovs : List Iov) (t : Table)
    → (ltb fd wasi_max_fd && not (is_neg (t.entries fd).real_fd)) ≡ false
    → fd_write true true (pos fd) iovs t ≡ write_all (pos fd) iovs 0
unfolding fd_write real_of
fd_write-unmapped fd iovs t h = rw h refl

-- Where O_RDONLY is 0, asking for reading and writing opens the file with O_WRONLY, never with O_RDWR: the
-- flags are those of writing alone (with the bits of O_RDONLY, which has none, put in).
native_flags-never_rdwr :
    (o : OpenFlags) (a : Asked)
    → o.rdonly ≡ 0
    → a.writes ≡ true
    → native_flags o a ≡ bit_or (or_if a.reads 0 (creation_flags o a)) o.wronly
unfolding native_flags
native_flags-never_rdwr o a z w =
    rw (z, w, bit_and-zero (or_if a.reads 0 (creation_flags o a))) refl

close_one_self : (i : ℕ) (t : Table) → is_neg ((close_one i t).entries i).real_fd ≡ true
close_one_self i t = elim (Bool-cases (is_neg (t.entries i).real_fd)) [
  | inl free ↦ rw free free
  | inr live ↦ rw (live, ==_refl i) refl
]

close_one-other : (i j : ℕ) (t : Table) → j ≢ i → (close_one i t).entries j ≡ t.entries j
close_one-other i j t h = elim (Bool-cases (is_neg (t.entries i).real_fd)) [
  | inl free ↦ rw free refl
  | inr live ↦ rw (live, ==_ne j i h) refl
]

close_from-kept : (n i j : ℕ) (t : Table) → j < i → (close_from n i t).entries j ≡ t.entries j
unfolding close_from
close_from-kept zero i j t h = refl
close_from-kept (suc n) i j t h =
    close_from-kept n (suc i) j (close_one i t) (omega arith)
    ∙ close_one-other i j t (λ e. omega (arith, e))

close_from-clears :
    (n i j : ℕ) (t : Table)
    → i ≤ j
    → j < i + n
    → is_neg ((close_from n i t).entries j).real_fd ≡ true
unfolding close_from
close_from-clears zero i j t low high = absurd (omega arith)
close_from-clears (suc n) i j t low high = elim (Bool-cases (j == i)) [
  | inl e ↦
      let here : i ≡ j = ground arith in
      rw (← here)
        (rw (close_from-kept n (suc i) i (close_one i t) (omega arith)) (close_one_self i t))
  | inr e ↦ close_from-clears n (suc i) j (close_one i t) (ground arith) (omega arith)
]

-- After ixland_wamr_deinit no number from 3 to 127 stands for a descriptor of the host, and the three
-- standard ones are as they were.
wamr_deinit-clears :
    (t : Table) (j : ℕ)
    → j < wasi_max_fd
    → ((j < 3) × ((wamr_deinit t).entries j ≡ t.entries j))
      ⊎ ((3 ≤ j) × (is_neg ((wamr_deinit t).entries j).real_fd ≡ true))
unfolding wamr_deinit
wamr_deinit-clears t j h = elim (Bool-cases (ltb j 3)) [
  | inl e ↦ let low : j < 3 = ground arith in inl (low, close_from-kept (wasi_max_fd - 3) 3 j t low)
  | inr e ↦
      let high : 3 ≤ j = ground arith in
      inr (high, close_from-clears (wasi_max_fd - 3) 3 j t high (omega arith))
]
