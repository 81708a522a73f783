-- ===== src/Path/Hybrid/Routes.antt =====
-- path.c: where __ixland_path_resolve sends a path, and how long what it leaves is.
use ixland.Prelude.{
  ℕ, zero, suc, ◌+◌, ◌-◌, ◌≡◌, refl, true, false, not, Option, none, some, [], ◌∷◌, ◌++◌, arith,
  ◌==◌, length, Bool-cases, inl, inr, ◌⊎◌, ◌<◌, ◌≤◌, leb, ltb, length-append, if◌then◌else◌,
}
use ixland.Prelude.Text.{Bytes, take}
use ixland.Fd.Errno.{einval, enametoolong}
use ixland.Fd.Files.{Outcome, ok, err}
use ixland.Path.{PathType, slash, copy_checked, max_path}
use ixland.Path.Dots.Ends.{normalize-ends}
use ixland.Path.Hybrid.{
  Patterns, with_slash, is_absolute, path_join, path_is_virtual_linux, path_is_own_sandbox,
  path_is_external, hybrid_classify, path_is_direct, Translate, resolve_direct, or_untranslated,
  resolve_virtual, if_it_fits, resolve_in, resolve_as, path_resolve, is_virtual_type,
}

-- What the result says is shorter than the buffer, so that the closing NUL fits.
abbrev Fits : ℕ → Outcome Bytes → Type 0
Fits size (err e) = Unit
Fits size (ok t) = length t < size

-- A result is there, and fits.
abbrev pub Answers : ℕ → Option (Outcome Bytes) → Type 0
Answers size r = (o : Outcome Bytes) × (r ≡ some o) × Fits size o

take_shorter : (n : ℕ) (s : Bytes) → length (take n s) ≤ n
take_shorter zero s = omega arith
take_shorter (suc n) [] = omega arith
take_shorter (suc n) (b ∷ s) = let rest = take_shorter n s in omega arith

-- Of a path that is not empty, __ixland_path_is_direct is the opposite of
-- __ixland_path_is_virtual_linux, and __ixland_path_classify finds one of three types.
classify_cases :
    (m : Patterns) (c : ℕ) (s : Bytes)
    → (path_is_direct m (some (c ∷ s)) ≡ not (path_is_virtual_linux (some (c ∷ s))))
      × ((hybrid_classify m (some (c ∷ s)) ≡ PathType.virtual_linux)
          ⊎ ((hybrid_classify m (some (c ∷ s)) ≡ PathType.own_sandbox)
              ⊎ (hybrid_classify m (some (c ∷ s)) ≡ PathType.external)))
unfolding path_is_direct hybrid_classify
classify_cases m c s =
    at (Bool-cases (path_is_virtual_linux (some (c ∷ s))))
      (Bool-cases (path_is_own_sandbox m (some (c ∷ s))))
      (Bool-cases (path_is_external m (some (c ∷ s))))
  where
    at :
        (path_is_virtual_linux (some (c ∷ s)) ≡ true)
          ⊎ (path_is_virtual_linux (some (c ∷ s)) ≡ false)
        → (path_is_own_sandbox m (some (c ∷ s)) ≡ true)
          ⊎ (path_is_own_sandbox m (some (c ∷ s)) ≡ false)
        → (path_is_external m (some (c ∷ s)) ≡ true) ⊎ (path_is_external m (some (c ∷ s)) ≡ false)
        → (path_is_direct m (some (c ∷ s)) ≡ not (path_is_virtual_linux (some (c ∷ s))))
          × ((hybrid_classify m (some (c ∷ s)) ≡ PathType.virtual_linux)
              ⊎ ((hybrid_classify m (some (c ∷ s)) ≡ PathType.own_sandbox)
                  ⊎ (hybrid_classify m (some (c ∷ s)) ≡ PathType.external)))
    at (inl a) b e = (rw a refl, inl (rw a refl))
    at (inr a) (inl b) e = (rw (a, b) refl, inr (inl (rw (a, b) refl)))
    at (inr a) (inr b) (inl e) = (rw (a, b, e) refl, inr (inr (rw (a, b, e) refl)))
    at (inr a) (inr b) (inr e) = (rw (a, b, e) refl, inr (inr (rw (a, b, e) refl)))

copy_checked-Fits : (s : Bytes) (size : ℕ) → 1 ≤ size → Fits size (copy_checked s size)
copy_checked-Fits s size h = elim (Bool-cases (leb size (length s))) [
  | inl e ↦ rw e tt
  | inr e ↦ rw e (let cut = take_shorter (size - 1) s in omega arith)
]

resolve_direct-Answers : (s : Bytes) (size : ℕ) → 1 ≤ size → Answers size (resolve_direct s size)
resolve_direct-Answers s size h = elim (Bool-cases (leb size (length s))) [
  | inl e ↦ rw e (err enametoolong, refl, tt)
  | inr e ↦
      let (t, q, l) = normalize-ends (take (size - 1) s) in
      let cut = take_shorter (size - 1) s in rw (e, q) (ok t, refl, omega arith)
]

or_untranslated-Fits :
    (t : Bytes) (size : ℕ) (r : Option Bytes)
    → 1 ≤ size
    → ((host : Bytes) → r ≡ some host → length host < size)
    → Fits size (or_untranslated t size r)
or_untranslated-Fits t size none h inside = copy_checked-Fits t size h
or_untranslated-Fits t size (some host) h inside = inside host refl

-- `ixland_vfs_translate` writes no further than its buffer.
abbrev pub StaysInside : Translate → Type 0
StaysInside translate =
    (t : Bytes) (size : ℕ) (host : Bytes) → translate t size ≡ some host → length host < size

resolve_virtual-Answers :
    (translate : Translate) (s : Bytes) (size : ℕ)
    → StaysInside translate
    → 1 ≤ size
    → Answers size (resolve_virtual translate s size)
resolve_virtual-Answers translate s size inside h = elim (Bool-cases (leb max_path (length s))) [
  | inl e ↦ rw e (err enametoolong, refl, tt)
  | inr e ↦
      let (t, q, l) = normalize-ends (take (max_path - 1) s) in
      rw (e, q)
        (
          or_untranslated t size (translate t size),
          refl,
          or_untranslated-Fits t size (translate t size) h (inside t size),
        )
]

if_it_fits-Fits :
    (t : Bytes) (size : ℕ) (r : Option Bytes)
    → length t < size
    → length (if_it_fits t size r) < size
if_it_fits-Fits t size none h = h
if_it_fits-Fits t size (some host) h = let cut = take_shorter (size - 1) host in ground arith

resolve_in-Answers :
    (m : Patterns) (translate : Translate) (cwd : Outcome Bytes) (s : Bytes) (size : ℕ)
    → Answers size (resolve_in m translate cwd s size)
resolve_in-Answers m translate (err e) s size = (err e, refl, tt)
resolve_in-Answers m translate (ok cwd) s size =
    elim (Bool-cases (leb size (length cwd + length s + 2))) [
      | inl e ↦ rw e (err enametoolong, refl, tt)
      | inr e ↦
          let (t, q, l) = normalize-ends (cwd ++ slash ∷ s) in
          let both = length-append cwd (slash ∷ s) in
          let fits : length t < size = ground arith in
          rw (e, q)
            (elim (Bool-cases (is_virtual_type (hybrid_classify m (some t)))) [
              | inl v ↦ rw v (
                ok (if_it_fits t size (translate t max_path)),
                refl,
                if_it_fits-Fits t size (translate t max_path) fits,
              )
              | inr v ↦ rw v (ok t, refl, fits)
            ])
    ]

resolve_as-Answers :
    (m : Patterns) (translate : Translate) (cwd : Outcome Bytes) (s : Bytes) (size : ℕ)
    (kind : PathType)
    → StaysInside translate
    → 1 ≤ size
    → Answers size (resolve_as m translate cwd s size kind)
resolve_as-Answers m translate cwd s size PathType.own_sandbox inside h =
    resolve_direct-Answers s size h
resolve_as-Answers m translate cwd s size PathType.external inside h =
    resolve_direct-Answers s size h
resolve_as-Answers m translate cwd s size PathType.virtual_linux inside h =
    resolve_virtual-Answers translate s size inside h
resolve_as-Answers m translate cwd s size PathType.invalid inside h =
    resolve_in-Answers m translate cwd s size
resolve_as-Answers m translate cwd s size PathType.absolute_host inside h =
    resolve_in-Answers m translate cwd s size

-- When `ixland_vfs_translate` writes no further than its buffer, `__ixland_path_resolve` answers for
-- every path, current directory and size, and a path that it gives is shorter than the buffer.
pub path_resolve-Answers :
    (m : Patterns) (translate : Translate) (cwd : Outcome Bytes) (path : Option Bytes) (size : ℕ)
    → StaysInside translate
    → Answers size (path_resolve m translate cwd path size)
unfolding path_resolve
path_resolve-Answers m translate cwd none size inside = (err einval, refl, tt)
path_resolve-Answers m translate cwd (some s) size inside = elim (Bool-cases (size == 0)) [
  | inl e ↦ rw e (err einval, refl, tt)
  | inr e ↦
      rw e (
        resolve_as-Answers m translate cwd s size (hybrid_classify m (some s)) inside
          (ground arith))
]

-- `__ixland_path_resolve` of a path that is not empty, a relative one too, never looks at the current
-- directory.
path_resolve_anywhere :
    (m : Patterns) (translate : Translate) (here there : Outcome Bytes) (c : ℕ) (s : Bytes)
    (size : ℕ)
    → path_resolve m translate here (some (c ∷ s)) size
      ≡ path_resolve m translate there (some (c ∷ s)) size
unfolding path_resolve
path_resolve_anywhere m translate here there c s size = elim (classify_cases m c s).1 [
  | inl e ↦ rw e refl
  | inr (inl e) ↦ rw e refl
  | inr (inr e) ↦ rw e refl
]

length-with_slash : (base rel : Bytes) → length (with_slash base rel) ≤ length base + length rel + 1
length-with_slash base rel =
    let plain = length-append base rel in let one = length-append base (slash ∷ rel) in ground arith

-- `__ixland_path_join` of two texts into a buffer that is not empty writes a text that fits: the second
-- one if that is absolute, or both with a slash between them, or the empty text in place of one too long.
path_join_cases :
    (base rel : Bytes) (size : ℕ)
    → 1 ≤ size
    → (t : Bytes) × (path_join (some base) (some rel) size ≡ some t)
      × (length t < size)
      × ((t ≡ []) ⊎ (t ≡ (if is_absolute rel then rel else with_slash base rel)))
unfolding path_join
path_join_cases base rel size h = at (Bool-cases (is_absolute rel))
  where
    some_room : (size == 0) ≡ false
    some_room = ground arith

    at :
        (is_absolute rel ≡ true) ⊎ (is_absolute rel ≡ false)
        → (t : Bytes) × (path_join (some base) (some rel) size ≡ some t)
          × (length t < size)
          × ((t ≡ []) ⊎ (t ≡ (if is_absolute rel then rel else with_slash base rel)))
    at (inl a) = elim (Bool-cases (leb size (length rel))) [
      | inl e ↦ ([], rw (some_room, a, e) refl, omega arith, inl refl)
      | inr e ↦ (rel, rw (some_room, a, e) refl, ground arith, inr (rw a refl))
    ]
    at (inr a) = elim (Bool-cases (ltb size (length base + length rel + 2))) [
      | inl e ↦ ([], rw (some_room, a, e) refl, omega arith, inl refl)
      | inr e ↦ (
        with_slash base rel,
        rw (some_room, a, e) refl,
        (let bound = length-with_slash base rel in ground arith),
        inr (rw a refl),
      )
    ]
