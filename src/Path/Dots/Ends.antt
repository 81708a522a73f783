-- ===== src/Path/Dots/Ends.antt =====
-- __ixland_path_normalize: the pass ends, and never writes further than it has read.
use ixland.Prelude.{
  ℕ, zero, suc, ◌+◌, ◌≡◌, refl, [], ◌∷◌, arith, ◌==◌, length, Bool-cases, inl, inr, ◌≤◌, some,
}
use ixland.Prelude.Text.{Bytes, reverse_onto}
use ixland.Path.{slash}
use ixland.Path.Dots.{
  skip_slashes, is_single, is_double, rest_of, back, up, one_slash, after_slash, round, loop, start,
  finish, normalize,
}

pub length-skip_slashes : (s : Bytes) → length (skip_slashes s) ≤ length s
unfolding skip_slashes
length-skip_slashes [] = ground arith
length-skip_slashes (c ∷ s) = ground (arith, length-skip_slashes s)

length-back : (at : ℕ) (before : Bytes) → length (back at before) ≤ suc (length before)
unfolding back
length-back at [] = ground arith
length-back at (b ∷ before) = ground (arith, length-back b before)

length-up : (out : Bytes) → length (up out) ≤ length out
length-up [] = ground arith
length-up (a ∷ []) = ground arith
length-up (a ∷ b ∷ out) = ground (arith, length-back a (b ∷ out))

pub length-rest_of : (s : Bytes) → length (rest_of s) ≤ length s
length-rest_of [] = ground arith
length-rest_of (c ∷ s) = ground arith

-- A run of slashes gives way to at most one byte.
after_slash-length :
    (src out : Bytes)
    → length (after_slash src out).0 + length (after_slash src out).1
      ≤ suc (length src + length out)
after_slash-length src out = elim (Bool-cases (is_single src)) [
  | inl e ↦ rw e (let shorter = length-rest_of src in omega arith)
  | inr e ↦ rw e (elim (Bool-cases (is_double src)) [
    | inl d ↦ rw d (
        let shorter = length-rest_of src in
        let again = length-rest_of (rest_of src) in let less = length-up out in omega arith)
    | inr d ↦ rw d (let more = length-one_slash out in omega arith)
  ])
]
  where
    length-one_slash : (o : Bytes) → length (one_slash o) ≤ suc (length o)
    length-one_slash [] = ground arith
    length-one_slash (a ∷ o) = ground arith

after_slash-src : (src out : Bytes) → length (after_slash src out).0 ≤ length src
after_slash-src src out =
    let once = length-rest_of src in let twice = length-rest_of (rest_of src) in ground arith

-- A round reads a byte at least.
round-src : (c : ℕ) (src out : Bytes) → length (round c src out).0 ≤ length src
round-src c src out =
    let run = length-skip_slashes src in
    let t = after_slash-src (skip_slashes src) out in ground arith

round-length :
    (c : ℕ) (src out : Bytes)
    → length (round c src out).0 + length (round c src out).1 ≤ suc (length src + length out)
round-length c src out = elim (Bool-cases (c == slash)) [
  | inl e ↦ rw e (
      let run = length-skip_slashes src in
      let t = after_slash-length (skip_slashes src) out in omega arith)
  | inr e ↦ rw e (omega arith)
]

loop-ends :
    (fuel : ℕ) (src out : Bytes)
    → length src ≤ fuel
    → (last : Bytes) × (loop fuel src out ≡ some last) × (length last ≤ length src + length out)
unfolding loop
loop-ends fuel [] out h = (out, refl, omega arith)
loop-ends zero (c ∷ src) out h = absurd (omega (arith, h))
loop-ends (suc fuel) (c ∷ src) out h =
    let shorter = round-src c src out in
    let bound = round-length c src out in
    let (last, e, l) = loop-ends fuel (round c src out).0 (round c src out).1 (omega arith) in
    (last, e, omega arith)

start-length : (s : Bytes) → length (start s).0 + length (start s).1 ≤ length s
unfolding start
start-length [] = ground arith
start-length (c ∷ s) =
    let run = length-skip_slashes s in
    let next = length-rest_of (skip_slashes s) in
    let again = length-skip_slashes (rest_of (skip_slashes s)) in ground arith

length-finish : (out : Bytes) → length (finish out) ≤ length out
length-finish [] = ground arith
length-finish (a ∷ []) = ground arith
length-finish (a ∷ b ∷ out) = ground arith

pub length-reverse_onto :
    (s after : Bytes) → length (reverse_onto s after) ≡ length s + length after
length-reverse_onto [] after = omega arith
length-reverse_onto (b ∷ s) after = let rest = length-reverse_onto s (b ∷ after) in omega arith

-- `__ixland_path_normalize` ends on every text: as many rounds as the text has bytes are enough. It
-- leaves a text that is not longer, so that what it writes fits in the buffer.
pub normalize-ends : (s : Bytes) → (t : Bytes) × (normalize s ≡ some t) × (length t ≤ length s)
unfolding normalize
normalize-ends s =
    let bound = start-length s in
    let (last, e, l) = loop-ends (length s) (start s).0 (start s).1 (omega arith) in
    let cut = length-finish last in
    let same = length-reverse_onto (finish last) [] in
    (reverse_onto (finish last) [], rw e refl, omega arith)
