-- ===== src/Fd/Files/Table.antt =====
-- One descriptor table: which descriptor is handed out, and what the calls leave behind.
use ixland.Prelude.{
  ℕ, zero, suc, ◌+◌, ◌<◌, ◌≡◌, refl, ap, fun_ext, ◌∙◌, ◌⊎◌, inl, inr, Option, none, some, List, [],
  ◌∷◌, arith, ==_refl, length, get_elem?, set, get_elem?-set_self,
}
use ixland.Prelude.Int.{ℤ, pos, negsuc}
use ixland.Fd.Errno.{emfile, ebadf}
use ixland.Fd.Files.{
  Ptr, File, FileHeap, write, Files, ok, err, drop_ref, take_ref, first_free, fd_alloc, fd_free,
  fd_lookup, file_free,
}

-- The slots before `k` are taken, and `k` is empty.
abbrev IsFirstFree : List (Option Ptr) → ℕ → Type 0
IsFirstFree slots k =
    (get_elem? slots k ≡ some none)
    × ((j : ℕ) → j < k → (p : Ptr) × (get_elem? slots j ≡ some (some p)))

abbrev IsFull : List (Option Ptr) → Type 0
IsFull slots = (j : ℕ) → j < length slots → (p : Ptr) × (get_elem? slots j ≡ some (some p))

first_free_cases :
    (slots : List (Option Ptr)) (i : ℕ)
    → ((first_free slots i ≡ none) × IsFull slots)
      ⊎ ((k : ℕ) × (first_free slots i ≡ some (i + k)) × IsFirstFree slots k)
unfolding first_free
first_free_cases [] i = inl (refl, λ j h. elim h [ ])
first_free_cases (none ∷ slots) i = inr (0, ap some (omega arith), (refl, λ j h. elim h [ ]))
first_free_cases (some p ∷ slots) i = elim (first_free_cases slots (i + 1)) [
  | inl (e, f) ↦ inl (e, below p slots f)
  | inr (k, e, (f, g)) ↦ inr (suc k, e ∙ ap some (omega arith), (f, shifted p slots k g))
]
  where
    below : (p : Ptr) (slots : List (Option Ptr)) → IsFull slots → IsFull (some p ∷ slots)
    below p slots f zero h = (p, refl)
    below p slots f (suc j) h = f j (omega arith)

    shifted :
        (p : Ptr) (slots : List (Option Ptr)) (k : ℕ)
        → ((j : ℕ) → j < k → (q : Ptr) × (get_elem? slots j ≡ some (some q)))
        → (j : ℕ) → j < suc k
        → (q : Ptr) × (get_elem? (some p ∷ slots) j ≡ some (some q))
    shifted p slots k g zero h = (p, refl)
    shifted p slots k g (suc j) h = g j (omega arith)

-- The table after the object `p` is put at the descriptor `k`.
abbrev installed : Files → ℕ → Ptr → Files
installed t k p = record { slots = set t.slots k (some p) }

-- `ixland_fd_alloc` of a live object hands out the lowest free descriptor and counts one reference
-- more; with every slot taken it fails with EMFILE and changes nothing.
fd_alloc-lowest :
    (t : Files) (p : Ptr) (h : FileHeap) (f : File)
    → h p ≡ some f
    → (IsFull t.slots × (fd_alloc (some t) (some p) h ≡ some (err emfile, some t, h)))
      ⊎ ((k : ℕ) × IsFirstFree t.slots k
          × (fd_alloc (some t) (some p) h
              ≡ some (ok k, some (installed t k p), write h p (some (take_ref f)))))
unfolding fd_alloc
fd_alloc-lowest t p h f e = elim (first_free_cases t.slots 0) [
  | inl (none_free, full) ↦ inl (full, rw (fd_alloc, none_free))
  | inr (k, at, first) ↦
      let at' : first_free t.slots 0 ≡ some k = at ∙ ap some (omega arith) in
      inr (k, first, rw (fd_alloc, at') (rw (fd_alloc, e)))
]

set-set {ℓ} : {A : Type ℓ} (xs : List A) (k : ℕ) (a b : A) → set (set xs k a) k b ≡ set xs k b
set-set [] k a b = refl
set-set (x ∷ xs) zero a b = refl
set-set (x ∷ xs) (suc k) a b = ap (◌∷◌ x) (set-set xs k a b)

set-get_elem? {ℓ} :
    {A : Type ℓ} (xs : List A) (k : ℕ) (a : A) → get_elem? xs k ≡ some a → set xs k a ≡ xs
set-get_elem? [] k a e = cc
set-get_elem? (x ∷ xs) zero a e = ap (λ y. y ∷ xs) (cc)
set-get_elem? (x ∷ xs) (suc k) a e = ap (◌∷◌ x) (set-get_elem? xs k a e)

get_elem?-lt {ℓ} :
    {A : Type ℓ} (xs : List A) (k : ℕ) (a : A) → get_elem? xs k ≡ some a → k < length xs
get_elem?-lt [] k a e = cc
get_elem?-lt (x ∷ xs) zero a e = omega arith
get_elem?-lt (x ∷ xs) (suc k) a e = omega (arith, get_elem?-lt xs k a e)

drop_ref-take_ref : (f : File) → 0 < f.refs → drop_ref (take_ref f) ≡ some f
drop_ref-take_ref f h = ground arith

write-write : (h : FileHeap) (p : Ptr) (a b : Option File) → write (write h p a) p b ≡ write h p b
write-write h p a b = fun_ext λ q. ground arith

write_self : (h : FileHeap) (p : Ptr) (a : Option File) → h p ≡ a → write h p a ≡ h
write_self h p a e = fun_ext λ q. ground arith

fd_free-installed :
    (t : Files) (p : Ptr) (h : FileHeap) (f : File) (k : ℕ)
    → h p ≡ some f
    → 0 < f.refs
    → get_elem? t.slots k ≡ some none
    → fd_free (some (installed t k p)) (pos k) (write h p (some (take_ref f)))
      ≡ some (ok 0, some t, h)
unfolding fd_free file_free
fd_free-installed t p h f k e live empty =
    rw (fd_free, get_elem?-set_self t.slots k (some p) (get_elem?-lt t.slots k none empty))
      (rw (file_free, ==_refl p)
        (rw (
          drop_ref-take_ref f live,
          write-write h p (some (take_ref f)) (some f),
          write_self h p (some f) e,
          set-set t.slots k (some p) none,
          set-get_elem? t.slots k none empty,
        )))

-- Closing the descriptor that was just handed out for a live object restores the table and every
-- reference count.
fd_free-fd_alloc :
    (t t' : Files) (p : Ptr) (h h' : FileHeap) (f : File) (k : ℕ)
    → h p ≡ some f
    → 0 < f.refs
    → fd_alloc (some t) (some p) h ≡ some (ok k, some t', h')
    → fd_free (some t') (pos k) h' ≡ some (ok 0, some t, h)
fd_free-fd_alloc t t' p h h' f k e live got = elim (fd_alloc-lowest t p h f e) [
  | inl (full, failed) ↦ cc
  | inr (j, first, eq) ↦
      let same_k : k ≡ j = cc in
      let same_t : t' ≡ installed t j p = cc in
      let same_h : h' ≡ write h p (some (take_ref f)) = cc in
      rw (same_k, same_t, same_h) (fd_free-installed t p h f j e live first.0)
]

set_found {ℓ} :
    {A : Type ℓ} (xs : List A) (k : ℕ) (v : A)
    → (get_elem? xs k ≡ none) ⊎ (get_elem? (set xs k v) k ≡ some v)
set_found [] k v = inl refl
set_found (x ∷ xs) zero v = inr refl
set_found (x ∷ xs) (suc k) v = set_found xs k v

closed_slot :
    (t t' : Files) (k : ℕ) (h h' : FileHeap) (n : ℕ)
    → fd_free (some t) (pos k) h ≡ some (ok n, some t', h')
    → get_elem? t'.slots k ≡ some none
unfolding fd_free
closed_slot t t' k h h' n e = ground (arith, set_found t.slots k none)

-- A descriptor that was closed is empty: looking it up yields no file, and closing it again fails
-- with EBADF and changes nothing.
fd_free_twice :
    (t t' : Files) (fd : ℤ) (h h' : FileHeap) (n : ℕ)
    → fd_free (some t) fd h ≡ some (ok n, some t', h')
    → (fd_free (some t') fd h' ≡ some (err ebadf, some t', h'))
      × (fd_lookup (some t') fd h' ≡ some (ok none, h'))
unfolding fd_free fd_lookup
fd_free_twice t t' (negsuc m) h h' n e = cc
fd_free_twice t t' (pos k) h h' n e =
    let empty = closed_slot t t' k h h' n e in (rw (fd_free, empty), rw (fd_lookup, empty))
