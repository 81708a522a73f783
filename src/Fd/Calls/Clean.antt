-- ===== src/Fd/Calls/Clean.antt =====
-- open.c, fcntl.c, read_write.c: a descriptor that is not in use leaves nothing behind.
use ixland.Prelude.{
  ℕ, ◌-◌, ◌≡◌, ◌≢◌, refl, ap, sym, subst, ◌∙◌, Bool, ◌&&◌, true, false, arith, ◌==◌, Option, none,
  some, ltb, ◌⊎◌, Bool-cases, Option-cases, inl, inr, ==_ne,
}
use ixland.Prelude.Int.{ℤ, pos, negsuc}
use ixland.Prelude.Text.{Bytes}
use ixland.Fd.Files.{Outcome, ok, err}
use ixland.Fd.Static.{
  max_fd, FdTable, Entry, OpenFlags, zeroed, put_entry, file_init, first_unused, claim, alloc_fd,
  free_fd, get_fd_entry, init_fd_entry,
}
use ixland.Fd.Calls.{World, is_out, is_standard, open_file, open_entry, close_file}
use ixland.Fd.Static.Slots.{alloc_fd_cases}
use ixland.Fd.Calls.Sharing.{IsClean}

pub put_entry-IsClean :
    (t : FdTable) (i : ℕ) (e : Entry)
    → IsClean t
    → (e.used ≡ true) ⊎ (e ≡ zeroed)
    → IsClean (put_entry t i e)
put_entry-IsClean t i e clean h j a b free = at (Bool-cases (j == i)) h free
  where
    clash : true ≢ false
    clash q = cc

    at :
        ((j == i) ≡ true) ⊎ ((j == i) ≡ false)
        → (e.used ≡ true) ⊎ (e ≡ zeroed)
        → ((put_entry t i e).entries j).used ≡ false
        → (put_entry t i e).entries j ≡ zeroed
    at (inl same) (inl used) f = absurd (clash (sym used ∙ rw same at f))
    at (inl same) (inr z) f = rw same z
    at (inr other) k f = rw other (clean j a b (rw other at f))

free_fd-IsClean : (fd : ℤ) (t : FdTable) → IsClean t → IsClean (free_fd fd t)
unfolding free_fd
free_fd-IsClean (negsuc n) t clean = clean
free_fd-IsClean (pos i) t clean =
    elim (Bool-cases (ltb 2 i && ltb i max_fd && (t.entries i).used)) [
      | inl e ↦ rw e (put_entry-IsClean t i zeroed clean (inr refl))
      | inr e ↦ rw e clean
    ]

-- What `get_fd_entry` finds is in use.
pub found-used :
    (fd : ℤ) (t : FdTable) (i : ℕ) → get_fd_entry fd t ≡ some i → (t.entries i).used ≡ true
unfolding get_fd_entry
found-used (negsuc n) t i h = cc
found-used (pos j) t i h = at (Bool-cases (ltb j max_fd)) (Bool-cases (t.entries j).used) h
  where
    the_same : some j ≡ some i → i ≡ j
    the_same q = cc

    nothing : ◌≢◌ {A = Option ℕ} none (some i)
    nothing q = cc

    at :
        (ltb j max_fd ≡ true) ⊎ (ltb j max_fd ≡ false)
        → ((t.entries j).used ≡ true) ⊎ ((t.entries j).used ≡ false)
        → get_fd_entry (pos j) t ≡ some i
        → (t.entries i).used ≡ true
    at (inl a) (inl b) f = ap (λ k. (t.entries k).used) (the_same (sym (rw (a, b) refl) ∙ f)) ∙ b
    at (inl a) (inr b) f = absurd (nothing (sym (rw (a, b) refl) ∙ f))
    at (inr a) b f = absurd (nothing (sym (rw a refl) ∙ f))

alloc_fd-IsClean : (t : FdTable) → IsClean t → IsClean (alloc_fd t).1
unfolding alloc_fd
alloc_fd-IsClean t clean = at (first_unused (max_fd - 3) 3 t.entries)
  where
    at : (o : Option ℕ) → IsClean (claim t o).1
    at none = clean
    at (some i) =
        put_entry-IsClean t i (record (t.entries i) { used = true; fd = negsuc 0; offset = pos 0 })
          clean (inl refl)

pub file_init-IsClean :
    (o : OpenFlags) (junk : ℕ → Entry)
    → IsClean (file_init o (record { entries = junk; initialized = false }))
unfolding file_init
file_init-IsClean o junk i a b free =
    let x : (i == 2) ≡ false = ground arith in
    let y : (i == 1) ≡ false = ground arith in
    let z : (i == 0) ≡ false = ground arith in rw (x, y, z) refl

pub open_file-IsClean :
    (path : Option Bytes) (flags mode : ℕ) (answer : Outcome ℕ) (directory : Option Bool)
    (w : World)
    → IsClean w.table
    → IsClean (open_file path flags mode answer directory w).1.table
unfolding open_file init_fd_entry
open_file-IsClean none flags mode answer directory w clean = clean
open_file-IsClean (some path) flags mode answer directory w clean = elim (alloc_fd_cases w.table) [
  | inl (full, q) ↦ rw q clean
  | inr (i, l, q, low, high, free, all, used, others) ↦
      let cleared : IsClean l = rw q at (alloc_fd-IsClean w.table clean) in
      rw q (with_answer answer i l used cleared)
]
  where
    with_answer :
        (r : Outcome ℕ) (i : ℕ) (l : FdTable)
        → (l.entries i).used ≡ true
        → IsClean l
        → IsClean (open_entry (ok i, l) path flags mode r directory w.closed).1.table
    with_answer (err e) i l used c = free_fd-IsClean (pos i) l c
    with_answer (ok real) i l used c = put_entry-IsClean l i _ c (inl used)

close_file-table :
    (fd : ℤ) (w : World)
    → ((close_file fd w).1.table ≡ w.table) ⊎ ((close_file fd w).1.table ≡ free_fd fd w.table)
unfolding close_file
close_file-table fd w = elim (Bool-cases (is_out fd)) [
  | inl a ↦ inl (rw a refl)
  | inr a ↦ elim (Bool-cases (is_standard fd)) [
    | inl b ↦ inl (rw (a, b) refl)
    | inr b ↦ elim (Option-cases (get_fd_entry fd w.table)) [
      | inl e ↦ inl (rw (a, b, e) refl)
      | inr (i, e) ↦ inr (rw (a, b, e) refl)
    ]
  ]
]

pub close_file-IsClean : (fd : ℤ) (w : World) → IsClean w.table → IsClean (close_file fd w).1.table
close_file-IsClean fd w clean = elim (close_file-table fd w) [
  | inl e ↦ subst IsClean (sym e) clean
  | inr e ↦ subst IsClean (sym e) (free_fd-IsClean fd w.table clean)
]

-- Closing leaves the other entries.
pub close_file-other :
    (b a : ℕ) (w : World) → a ≢ b → (close_file (pos b) w).1.table.entries a ≡ w.table.entries a
unfolding free_fd
close_file-other b a w ne = elim (close_file-table (pos b) w) [
  | inl e ↦ ap (λ t. t.entries a) e
  | inr e ↦
      ap (λ t. t.entries a) e
      ∙ elim (Bool-cases (ltb 2 b && ltb b max_fd && (w.table.entries b).used)) [
        | inl f ↦ rw f (rw (==_ne a b ne) refl)
        | inr f ↦ rw f refl
      ]
]

pub move_offset-IsClean :
    (t : FdTable) (i : ℕ) (offset : ℤ)
    → (t.entries i).used ≡ true
    → IsClean t
    → IsClean (put_entry t i (record (t.entries i) { offset = offset }))
move_offset-IsClean t i offset used clean =
    put_entry-IsClean t i (record (t.entries i) { offset = offset }) clean (inl used)
