-- ===== src/Path/Dots/Names.antt =====
-- __ixland_path_normalize: names, a stack of names, and what the code has written for them.
use ixland.Prelude.{
  ℕ, ◌≡◌, refl, ◌∙◌, Bool, true, false, ◌||◌, List, [], ◌∷◌, ◌++◌, arith, ◌==◌, if◌then◌else◌,
  length, Bool-cases, inl, inr, ◌⊎◌, ◌≤◌,
}
use ixland.Prelude.Text.{Bytes, codes, same_bytes, reverse_onto}
use ixland.Path.{slash, dot}
use ixland.Path.Collapse.{parts, parts_from}
use ixland.Path.Dots.{
  skip_slashes, is_end, is_single, is_double, rest_of, back, up, one_slash, finish,
}
use ixland.Path.Dots.Ends.{length-reverse_onto}

abbrev pub is_dots : Bytes → Bool
is_dots p = same_bytes p (codes ".") || same_bytes p (codes "..")

abbrev pub parent : List Bytes → List Bytes
parent [] = []
parent (p ∷ names) = names

-- One name after the names so far, the last one first.
abbrev pub step : List Bytes → Bytes → List Bytes
step names p =
    if same_bytes p (codes ".")
    then names
    else if same_bytes p (codes "..")
    then parent names
    else p ∷ names

unfoldable pub resolve : List Bytes → List Bytes → List Bytes
resolve names [] = names
resolve names (p ∷ ps) = resolve (step names p) ps

unfoldable pub path_onto : List Bytes → Bytes → Bytes
path_onto [] after = after
path_onto (p ∷ names) after = path_onto names (slash ∷ p ++ after)

-- A slash before every name; the root has no name.
abbrev pub path_of : List Bytes → Bytes
path_of [] = slash ∷ []
path_of (p ∷ names) = path_onto (p ∷ names) []

-- The bytes up to a slash.
unfoldable pub name : Bytes → Bytes
name [] = []
name (c ∷ s) = let rest = name s in if c == slash then [] else c ∷ rest

-- What the code has written for the names so far, last byte first.
unfoldable pub body : List Bytes → Bytes
body [] = []
body (p ∷ names) = reverse_onto p (slash ∷ body names)

abbrev pub text : List Bytes → Bytes
text [] = slash ∷ []
text (p ∷ names) = body (p ∷ names)

unfoldable pub is_plain : Bytes → Bool
is_plain [] = true
is_plain (c ∷ p) = let rest = is_plain p in if c == slash then false else rest

-- A name is not empty and has no slash.
abbrev IsName : Bytes → Type 0
IsName p = (1 ≤ length p) × (is_plain p ≡ true)

abbrev pub AreNames : List Bytes → Type 0
AreNames [] = Unit
AreNames (p ∷ names) = IsName p × AreNames names

pub reverse_onto-snoc :
    (p : Bytes) (c : ℕ) (after : Bytes)
    → reverse_onto (p ++ c ∷ []) after ≡ c ∷ reverse_onto p after
reverse_onto-snoc [] c after = refl
reverse_onto-snoc (b ∷ p) c after = reverse_onto-snoc p c (b ∷ after)

reverse_onto-reverse_onto :
    (p x after : Bytes) → reverse_onto (reverse_onto p x) after ≡ reverse_onto x (p ++ after)
reverse_onto-reverse_onto [] x after = refl
reverse_onto-reverse_onto (b ∷ p) x after = reverse_onto-reverse_onto p (b ∷ x) after

pub reverse_onto-body :
    (names : List Bytes) (after : Bytes) → reverse_onto (body names) after ≡ path_onto names after
unfolding body path_onto
reverse_onto-body [] after = refl
reverse_onto-body (p ∷ names) after =
    reverse_onto-reverse_onto p (slash ∷ body names) after
    ∙ reverse_onto-body names (slash ∷ p ++ after)

pub is_plain-snoc :
    (p : Bytes) (c : ℕ) → is_plain p ≡ true → (c == slash) ≡ false → is_plain (p ++ c ∷ []) ≡ true
unfolding is_plain
is_plain-snoc [] c h q = rw q refl
is_plain-snoc (b ∷ p) c h q = ground (arith, is_plain-snoc p c)

-- `up`, without its test for a buffer of one byte.
abbrev scan : Bytes → Bytes
scan [] = []
scan (a ∷ out) = back a out

up-scan : (out : Bytes) → up out ≡ scan out
unfolding back
up-scan [] = refl
up-scan (a ∷ []) = refl
up-scan (a ∷ b ∷ out) = refl

scan-reverse_onto :
    (p : Bytes) (a : ℕ) (out : Bytes)
    → is_plain p ≡ true
    → scan (reverse_onto p (a ∷ out)) ≡ scan (a ∷ out)
unfolding back is_plain
scan-reverse_onto [] a out h = refl
scan-reverse_onto (c ∷ p) a out h =
    let other : (c == slash) ≡ false = ground arith in
    scan-reverse_onto p c (a ∷ out) (ground arith) ∙ rw other refl

scan_after : (out : Bytes) → 1 ≤ length out → scan (slash ∷ out) ≡ out
unfolding back
scan_after [] h = absurd (omega (arith, h))
scan_after (b ∷ out) h = refl

finish_after : (out : Bytes) → 1 ≤ length out → finish (slash ∷ out) ≡ out
finish_after [] h = absurd (omega (arith, h))
finish_after (b ∷ out) h = refl

length-body : (p : Bytes) (names : List Bytes) → 1 ≤ length (body (p ∷ names))
unfolding body
length-body p names = let both = length-reverse_onto p (slash ∷ body names) in omega arith

scan-body : (names : List Bytes) → scan (slash ∷ body names) ≡ text names
unfolding body back
scan-body [] = refl
scan-body (p ∷ names) = scan_after (body (p ∷ names)) (length-body p names)

pub finish-body : (names : List Bytes) → finish (slash ∷ body names) ≡ text names
unfolding body
finish-body [] = refl
finish-body (p ∷ names) = finish_after (body (p ∷ names)) (length-body p names)

pub up-text : (names : List Bytes) → AreNames names → up (text names) ≡ text (parent names)
unfolding body
up-text [] h = refl
up-text (p ∷ names) ((l, plain), h) =
    up-scan (body (p ∷ names)) ∙ scan-reverse_onto p slash (body names) plain ∙ scan-body names

one_slash-reverse_onto :
    (p out : Bytes)
    → is_plain p ≡ true
    → one_slash out ≡ slash ∷ out
    → one_slash (reverse_onto p out) ≡ slash ∷ reverse_onto p out
unfolding is_plain
one_slash-reverse_onto [] out h q = q
one_slash-reverse_onto (c ∷ p) out h q =
    let other : (c == slash) ≡ false = ground arith in
    one_slash-reverse_onto p (c ∷ out) (ground arith) (rw other refl)

finish_plain : (c : ℕ) (out : Bytes) → (c == slash) ≡ false → finish (c ∷ out) ≡ c ∷ out
finish_plain c [] h = refl
finish_plain c (b ∷ out) h = rw h refl

finish-reverse_onto :
    (p out : Bytes)
    → is_plain p ≡ true
    → finish out ≡ out
    → finish (reverse_onto p out) ≡ reverse_onto p out
unfolding is_plain
finish-reverse_onto [] out h q = q
finish-reverse_onto (c ∷ p) out h q =
    finish-reverse_onto p (c ∷ out) (ground arith) (finish_plain c out (ground arith))

pub one_slash-text :
    (names : List Bytes) → AreNames names → one_slash (text names) ≡ slash ∷ body names
unfolding body is_plain
one_slash-text [] h = refl
one_slash-text ([] ∷ names) ((l, plain), h) = absurd (omega (arith, l))
one_slash-text ((c ∷ p) ∷ names) ((l, plain), h) =
    let other : (c == slash) ≡ false = ground arith in
    one_slash-reverse_onto p (c ∷ slash ∷ body names) (ground arith) (rw other refl)

pub finish-text : (names : List Bytes) → AreNames names → finish (text names) ≡ text names
unfolding body is_plain
finish-text [] h = refl
finish-text ([] ∷ names) ((l, plain), h) = absurd (omega (arith, l))
finish-text ((c ∷ p) ∷ names) ((l, plain), h) =
    finish-reverse_onto p (c ∷ slash ∷ body names) (ground arith)
      (finish_plain c (slash ∷ body names) (ground arith))

pub is_single-name : (s : Bytes) → is_single s ≡ same_bytes (name s) (codes ".")
unfolding name
is_single-name [] = refl
is_single-name (c ∷ []) = ground arith
is_single-name (c ∷ d ∷ s) = ground arith

pub is_double-name : (s : Bytes) → is_double s ≡ same_bytes (name s) (codes "..")
unfolding name
is_double-name [] = refl
is_double-name (c ∷ []) = ground arith
is_double-name (c ∷ d ∷ []) = ground arith
is_double-name (c ∷ d ∷ e ∷ s) = ground arith

pub name-is_end : (s : Bytes) → is_end s ≡ true → name s ≡ []
unfolding name
name-is_end [] h = refl
name-is_end (c ∷ s) h = rw h refl

pub parts_from-is_end :
    (s part : Bytes) → is_end s ≡ true → 1 ≤ length part → parts_from s part ≡ part ∷ parts s
unfolding parts_from
parts_from-is_end s [] h l = absurd (omega (arith, l))
parts_from-is_end [] (b ∷ part) h l = refl
parts_from-is_end (c ∷ s) (b ∷ part) h l = rw h refl

pub parts-skip_slashes : (s : Bytes) → parts (skip_slashes s) ≡ parts s
unfolding parts_from skip_slashes
parts-skip_slashes [] = refl
parts-skip_slashes (c ∷ s) = elim (Bool-cases (c == slash)) [
  | inl e ↦ rw e (parts-skip_slashes s)
  | inr e ↦ rw e (rw e refl)
]

pub skip_slashes_cases : (s : Bytes) → (skip_slashes s ≡ []) ⊎ (1 ≤ length (name (skip_slashes s)))
unfolding skip_slashes name
skip_slashes_cases [] = inl refl
skip_slashes_cases (c ∷ s) = elim (Bool-cases (c == slash)) [
  | inl e ↦ rw e (skip_slashes_cases s)
  | inr e ↦ inr (rw e (rw e (omega arith)))
]

pub parts-single :
    (s : Bytes)
    → is_single s ≡ true
    → (parts s ≡ codes "." ∷ parts (rest_of s)) × (is_end (rest_of s) ≡ true)
unfolding parts_from
parts-single [] h = absurd (ground (arith, h))
parts-single (c ∷ s) h =
    let q : c ≡ dot = ground arith in
    let e : is_end s ≡ true = ground arith in
    (rw q (parts_from-is_end s (codes ".") e (omega arith)), e)

pub parts-double :
    (s : Bytes)
    → is_double s ≡ true
    → (parts s ≡ codes ".." ∷ parts (rest_of (rest_of s))) × (is_end (rest_of (rest_of s)) ≡ true)
unfolding parts_from
parts-double [] h = absurd (ground (arith, h))
parts-double (c ∷ []) h = absurd (ground (arith, h))
parts-double (c ∷ d ∷ s) h =
    let q : c ≡ dot = ground arith in
    let r : d ≡ dot = ground arith in
    let e : is_end s ≡ true = ground arith in
    (rw (q, r) (parts_from-is_end s (codes "..") e (omega arith)), e)
