-- ===== src/Fd/Static/Slots.antt =====
-- fdtable.c: which entry of the library's table is handed out, and what a release leaves.
use ixland.Prelude.{
  ℕ, zero, suc, ◌+◌, ◌-◌, ◌<◌, ◌≤◌, ◌≡◌, ◌≢◌, refl, ap, ◌∙◌, ◌⊎◌, inl, inr, true, false, none, some,
  arith, ◌==◌, ltb, Bool-cases, ==_refl, ==_ne,
}
use ixland.Prelude.Int.{ℤ, pos, negsuc}
use ixland.Fd.Errno.{emfile}
use ixland.Fd.Files.{ok, err}
use ixland.Fd.Static.{max_fd, Entry, FdTable, first_unused, claim, alloc_fd, free_fd, get_fd_entry}

-- The entries from `low` up to `high`, not included, are in use.
abbrev pub AreUsed : (ℕ → Entry) → ℕ → ℕ → Type 0
AreUsed entries low high = (j : ℕ) → low ≤ j → j < high → (entries j).used ≡ true

first_unused_cases :
    (rounds i : ℕ) (entries : ℕ → Entry)
    → ((first_unused rounds i entries ≡ none) × AreUsed entries i (i + rounds))
      ⊎ ((k : ℕ) × (first_unused rounds i entries ≡ some k)
          × (i ≤ k)
          × (k < i + rounds)
          × ((entries k).used ≡ false)
          × AreUsed entries i k)
unfolding first_unused
first_unused_cases zero i entries = inl (refl, λ j a b. absurd (omega (arith, a, b)))
first_unused_cases (suc rounds) i entries = elim (Bool-cases (entries i).used) [
  | inr free ↦
      inr (i, rw free refl, omega arith, omega arith, free, λ j a b. absurd (omega (arith, a, b)))
  | inl taken ↦ elim (first_unused_cases rounds (i + 1) entries) [
    | inl (e, all) ↦
        inl (
          rw taken e,
          λ j a b. one_more taken j a (Bool-cases (j == i)) (λ c. all j c (omega arith)),
        )
    | inr (k, e, low, high, free, all) ↦ inr (
      k,
      rw taken e,
      omega arith,
      omega arith,
      free,
      λ j a b. one_more taken j a (Bool-cases (j == i)) (λ c. all j c b),
    )
  ]
]
  where
    one_more :
        (entries i).used ≡ true
        → (j : ℕ) → i ≤ j
        → ((j == i) ≡ true) ⊎ ((j == i) ≡ false)
        → (i + 1 ≤ j → (entries j).used ≡ true)
        → (entries j).used ≡ true
    one_more taken j a (inl c) later =
        let here : j ≡ i = ground arith in ap (λ x. (entries x).used) here ∙ taken
    one_more taken j a (inr c) later = later (ground arith)

-- `alloc_fd` takes the lowest descriptor from 3 up that is not in use and changes no other entry;
-- with all of 3 to 255 in use it fails with EMFILE and changes nothing.
pub alloc_fd_cases :
    (t : FdTable)
    → (AreUsed t.entries 3 max_fd × (alloc_fd t ≡ (err emfile, t)))
      ⊎ ((i : ℕ) × (l : FdTable) × (alloc_fd t ≡ (ok i, l))
          × (3 ≤ i)
          × (i < max_fd)
          × ((t.entries i).used ≡ false)
          × AreUsed t.entries 3 i
          × ((l.entries i).used ≡ true)
          × ((j : ℕ) → j ≢ i → l.entries j ≡ t.entries j))
unfolding alloc_fd
alloc_fd_cases t = elim (first_unused_cases (max_fd - 3) 3 t.entries) [
  | inl (e, all) ↦ inl (all, ap (claim t) e)
  | inr (i, e, low, high, free, all) ↦ inr (
    i,
    (claim t (some i)).1,
    ap (claim t) e,
    low,
    omega arith,
    free,
    all,
    rw (==_refl i) refl,
    λ j ne. rw (==_ne j i ne) refl,
  )
]

-- Releasing a descriptor from 3 to 255 leaves it not in use, so that it is found no more, and no
-- other entry changes. Any other number, the standard descriptors among them, changes nothing.
free_fd_cases :
    (fd : ℤ) (t : FdTable)
    → ((i : ℕ) × (fd ≡ pos i)
        × (2 < i)
        × (i < max_fd)
        × (get_fd_entry fd (free_fd fd t) ≡ none)
        × ((j : ℕ) → j ≢ i → (free_fd fd t).entries j ≡ t.entries j))
      ⊎ (((i : ℕ) → fd ≡ pos i → 2 < i → max_fd ≤ i) × (free_fd fd t ≡ t))
unfolding free_fd get_fd_entry
free_fd_cases (negsuc n) t = inr (λ i e. cc, refl)
free_fd_cases (pos i) t =
    at (Bool-cases (ltb 2 i)) (Bool-cases (ltb i max_fd)) (Bool-cases (t.entries i).used)
  where
    only : (j : ℕ) → pos i ≡ pos j → i ≡ j
    only j e = cc

    at :
        (ltb 2 i ≡ true) ⊎ (ltb 2 i ≡ false)
        → (ltb i max_fd ≡ true) ⊎ (ltb i max_fd ≡ false)
        → ((t.entries i).used ≡ true) ⊎ ((t.entries i).used ≡ false)
        → ((j : ℕ) × (pos i ≡ pos j)
            × (2 < j)
            × (j < max_fd)
            × (get_fd_entry (pos i) (free_fd (pos i) t) ≡ none)
            × ((q : ℕ) → q ≢ j → (free_fd (pos i) t).entries q ≡ t.entries q))
          ⊎ (((j : ℕ) → pos i ≡ pos j → 2 < j → max_fd ≤ j) × (free_fd (pos i) t ≡ t))
    at (inr a) b c = inr (λ j e h. absurd (ground (arith, only j e)), rw a refl)
    at (inl a) (inr b) c = inr (λ j e h. ground (arith, only j e), rw (a, b) refl)
    at (inl a) (inl b) (inr c) =
        inl
          (i, refl, ground arith, ground arith, rw (a, b, c) (rw c refl), λ q ne. rw (a, b, c) refl)
    at (inl a) (inl b) (inl c) = inl (
      i,
      refl,
      ground arith,
      ground arith,
      rw (a, b, c) (rw (==_refl i) refl),
      λ q ne. rw (a, b, c) (rw (==_ne q i ne) refl),
    )
