-- ===== src/Path/Collapse.antt =====
-- path.c: runs of slashes collapse, and nothing else of a path changes.
use ixland.Prelude.{
  ℕ, ◌≡◌, refl, ap, ◌∙◌, Bool, true, false, not, ◌&&◌, List, [], ◌∷◌, ◌++◌, arith, ◌==◌,
  if◌then◌else◌, length, Bool-cases, inl, inr, ◌<◌, ◌≤◌, some,
}
use ixland.Prelude.Text.{Bytes}
use ixland.Fd.Files.{ok}
use ixland.Path.{slash, collapse, strip_slash, normalized, path_normalize}

-- A finished part, if it has any byte.
abbrev pub closed : Bytes → List Bytes → List Bytes
closed [] parts = parts
closed (c ∷ part) parts = (c ∷ part) ∷ parts

-- The parts of a path between its slashes, without the empty ones; `part` is the one begun.
unfoldable pub parts_from : Bytes → Bytes → List Bytes
parts_from [] part = closed part []
parts_from (c ∷ s) part =
    let next = parts_from s [] in
    let longer = parts_from s (part ++ c ∷ []) in if c == slash then closed part next else longer

abbrev pub parts : Bytes → List Bytes
parts s = parts_from s []

-- No slash follows another; the flag says whether one stands before the text.
unfoldable pub is_collapsed : Bool → Bytes → Bool
is_collapsed in_slash [] = true
is_collapsed in_slash (c ∷ s) =
    let after = is_collapsed true s in
    let plain = is_collapsed false s in if c == slash then not in_slash && after else plain

collapse-is_collapsed : (b : Bool) (s : Bytes) → is_collapsed b (collapse b s) ≡ true
unfolding collapse is_collapsed
collapse-is_collapsed b [] = refl
collapse-is_collapsed b (c ∷ s) =
    ground (arith, collapse-is_collapsed true s, collapse-is_collapsed false s)

collapse_same : (b : Bool) (s : Bytes) → is_collapsed b s ≡ true → collapse b s ≡ s
unfolding collapse is_collapsed
collapse_same b [] h = refl
collapse_same b (c ∷ s) h = ground (arith, collapse_same true s, collapse_same false s)

strip_slash-is_collapsed :
    (b : Bool) (s : Bytes) → is_collapsed b s ≡ true → is_collapsed b (strip_slash s) ≡ true
unfolding strip_slash is_collapsed
strip_slash-is_collapsed b [] h = h
strip_slash-is_collapsed b (c ∷ []) h = h
strip_slash-is_collapsed b (c ∷ d ∷ []) h = ground arith
strip_slash-is_collapsed b (c ∷ d ∷ e ∷ s) h =
    ground
      (arith, strip_slash-is_collapsed true (d ∷ e ∷ s), strip_slash-is_collapsed false (d ∷ e ∷ s))

strip_slash-cons : (c d : ℕ) (s : Bytes) → (w : Bytes) × (strip_slash (c ∷ d ∷ s) ≡ c ∷ w)
unfolding strip_slash
strip_slash-cons c d [] = elim (Bool-cases (d == slash)) [
  | inl e ↦ ([], rw e refl)
  | inr e ↦ (d ∷ [], rw e refl)
]
strip_slash-cons c d (e ∷ s) = (strip_slash (d ∷ e ∷ s), refl)

strip_slash_twice :
    (b : Bool) (s : Bytes) → is_collapsed b s ≡ true → strip_slash (strip_slash s) ≡ strip_slash s
unfolding strip_slash is_collapsed
strip_slash_twice b [] h = refl
strip_slash_twice b (c ∷ []) h = refl
strip_slash_twice b (c ∷ d ∷ []) h = ground arith
strip_slash_twice b (c ∷ d ∷ e ∷ []) h = ground arith
strip_slash_twice b (c ∷ d ∷ e ∷ f ∷ s) h =
    let (w, q) = strip_slash-cons e f s in
    let again : strip_slash (d ∷ strip_slash (e ∷ f ∷ s)) ≡ d ∷ strip_slash (e ∷ f ∷ s) =
      strip_slash_twice (c == slash) (d ∷ e ∷ f ∷ s) (ground arith) in
    rw q (ap (◌∷◌ c) (rw q at again))

-- A run of slashes closes one part.
parts_from-collapse :
    (s part : Bytes)
    → (parts_from (collapse false s) part ≡ parts_from s part)
      × (parts_from (collapse true s) [] ≡ parts_from s [])
unfolding collapse parts_from
parts_from-collapse [] part = (refl, refl)
parts_from-collapse (c ∷ s) part = elim (Bool-cases (c == slash)) [
  | inl e ↦ (
    rw e (rw e (ap (closed part) (parts_from-collapse s []).1)),
    rw e (parts_from-collapse s []).1,
  )
  | inr e ↦ (
    rw e (rw e (parts_from-collapse s (part ++ c ∷ [])).0),
    rw e (rw e (parts_from-collapse s (c ∷ [])).0),
  )
]

parts_from-strip_slash : (s part : Bytes) → parts_from (strip_slash s) part ≡ parts_from s part
unfolding strip_slash parts_from
parts_from-strip_slash [] part = refl
parts_from-strip_slash (c ∷ []) part = refl
parts_from-strip_slash (c ∷ d ∷ []) part = elim (Bool-cases (d == slash)) [
  | inl e ↦ rw e refl
  | inr e ↦ rw e (rw e refl)
]
parts_from-strip_slash (c ∷ d ∷ e ∷ s) part = elim (Bool-cases (c == slash)) [
  | inl f ↦ rw f (ap (closed part) (parts_from-strip_slash (d ∷ e ∷ s) []))
  | inr f ↦ rw f (parts_from-strip_slash (d ∷ e ∷ s) (part ++ c ∷ []))
]

-- What normalizing leaves has the parts of the text.
pub parts-normalized : (s : Bytes) → parts (normalized s) ≡ parts s
parts-normalized s = parts_from-strip_slash (collapse false s) [] ∙ (parts_from-collapse s []).0

length-collapse : (b : Bool) (s : Bytes) → length (collapse b s) ≤ length s
unfolding collapse
length-collapse b [] = ground arith
length-collapse b (c ∷ s) = ground (arith, length-collapse true s, length-collapse false s)

length-strip_slash : (s : Bytes) → length (strip_slash s) ≤ length s
unfolding strip_slash
length-strip_slash [] = ground arith
length-strip_slash (c ∷ []) = ground arith
length-strip_slash (c ∷ d ∷ []) = ground arith
length-strip_slash (c ∷ d ∷ e ∷ s) = ground (arith, length-strip_slash (d ∷ e ∷ s))

pub length-normalized : (s : Bytes) → length (normalized s) ≤ length s
length-normalized s =
    let left = length-strip_slash (collapse false s) in
    let run = length-collapse false s in omega arith

normalized_twice : (s : Bytes) → normalized (normalized s) ≡ normalized s
normalized_twice s =
    ap strip_slash (
      collapse_same false (normalized s)
        (strip_slash-is_collapsed false (collapse false s) (collapse-is_collapsed false s)))
    ∙ strip_slash_twice false (collapse false s) (collapse-is_collapsed false s)

pub normalized_ok :
    (s : Bytes) (size : ℕ) → length s < size → path_normalize (some s) size ≡ ok (normalized s)
unfolding path_normalize
normalized_ok s size h = ground arith

-- `ixland_path_normalize` of a text that fits its buffer succeeds, and doing it again changes nothing.
path_normalize_twice :
    (s : Bytes) (size : ℕ)
    → length s < size
    → (path_normalize (some s) size ≡ ok (normalized s))
      × (path_normalize (some (normalized s)) size ≡ ok (normalized s))
path_normalize_twice s size h =
    let fits = length-normalized s in
    (
      normalized_ok s size h,
      normalized_ok (normalized s) size (omega arith) ∙ ap ok (normalized_twice s),
    )

-- `ixland_path_normalize` of a text that fits its buffer leaves a text that is not longer, in which no
-- slash follows another, and which names the same parts between its slashes as the text did.
path_normalize-parts :
    (s : Bytes) (size : ℕ)
    → length s < size
    → (t : Bytes) × (path_normalize (some s) size ≡ ok t)
      × (length t ≤ length s)
      × (is_collapsed false t ≡ true)
      × (parts t ≡ parts s)
path_normalize-parts s size h = (
  normalized s,
  normalized_ok s size h,
  length-normalized s,
  strip_slash-is_collapsed false (collapse false s) (collapse-is_collapsed false s),
  parts-normalized s,
)
