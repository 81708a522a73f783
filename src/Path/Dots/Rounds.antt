-- ===== src/Path/Dots/Rounds.antt =====
-- __ixland_path_normalize: a round at a slash and a round in a name keep what is written in step with
-- the names.
use ixland.Prelude.{
  append_assoc, append_nil, ℕ, zero, suc, ◌≡◌, refl, ap, sym, ◌∙◌, true, false, List, [], ◌∷◌, ◌++◌,
  arith, ◌==◌, length, Bool-cases, inl, inr, ◌⊎◌, ◌≤◌, Option, none, some,
}
use ixland.Prelude.Text.{Bytes, codes, same_bytes, reverse_onto}
use ixland.Path.{slash}
use ixland.Path.Collapse.{parts, parts_from}
use ixland.Path.Dots.{
  skip_slashes, is_end, is_single, is_double, rest_of, after_slash, round, loop, finish,
}
use ixland.Path.Dots.Ends.{length-skip_slashes, length-rest_of}
use ixland.Path.Dots.Names.{
  is_dots, parent, step, resolve, name, body, text, is_plain, AreNames, reverse_onto-snoc,
  is_plain-snoc, finish-body, up-text, one_slash-text, finish-text, is_single-name, is_double-name,
  name-is_end, parts_from-is_end, parts-skip_slashes, skip_slashes_cases, parts-single,
  parts-double,
}

-- The bytes written once the loop is over, if it is.
abbrev pub finished : Option Bytes → Option Bytes
finished none = none
finished (some out) = some (finish out)

-- At a slash or at the end, the names so far are written.
abbrev AtSlash : ℕ → Type 0
AtSlash fuel =
    (src : Bytes) (names : List Bytes)
    → length src ≤ fuel
    → is_end src ≡ true
    → AreNames names
    → finished (loop fuel src (text names)) ≡ some (text (resolve names (parts src)))

-- In a name that is neither "." nor "..", of which `part` is read.
abbrev InName : ℕ → Type 0
InName fuel =
    (src part : Bytes) (names : List Bytes)
    → length src ≤ fuel
    → is_plain part ≡ true
    → 1 ≤ length (part ++ name src)
    → is_dots (part ++ name src) ≡ false
    → AreNames names
    → finished (loop fuel src (reverse_onto part (slash ∷ body names)))
      ≡ some (text (resolve names (parts_from src part)))

step_name : (names : List Bytes) (p : Bytes) → is_dots p ≡ false → step names p ≡ p ∷ names
step_name names p h =
    let a : same_bytes p (codes ".") ≡ false = ground arith in
    let b : same_bytes p (codes "..") ≡ false = ground arith in rw (a, b) refl

name_ends :
    (fuel : ℕ)
    → AtSlash fuel
    → (src part : Bytes) (names : List Bytes) → is_end src ≡ true
    → length src ≤ fuel
    → is_plain part ≡ true
    → 1 ≤ length part
    → is_dots part ≡ false
    → AreNames names
    → finished (loop fuel src (reverse_onto part (slash ∷ body names)))
      ≡ some (text (resolve names (parts_from src part)))
unfolding resolve body
name_ends fuel at src part names e l plain some_byte regular h =
    at src (part ∷ names) l e ((some_byte, plain), h)
    ∙ ap (λ x. some (text x))
        (ap (λ x. resolve x (parts src)) (sym (step_name names part regular))
          ∙ ap (resolve names) (sym (parts_from-is_end src part e some_byte)))

round_copies : (c : ℕ) (s out : Bytes) → (c == slash) ≡ false → round c s out ≡ (s, c ∷ out)
round_copies c s out e = rw e refl

round_stops :
    (c : ℕ) (s out : Bytes) → (c == slash) ≡ true → round c s out ≡ after_slash (skip_slashes s) out
round_stops c s out e = rw e refl

name_goes_on : (fuel : ℕ) → AtSlash (suc fuel) → InName fuel → InName (suc fuel)
unfolding loop name parts_from
name_goes_on fuel at within [] part names l plain some_byte regular h =
    let same = append_nil part in
    name_ends (suc fuel) at [] part names refl l plain (rw same at some_byte) (rw same at regular) h
name_goes_on fuel at within (c ∷ s) part names l plain some_byte regular h =
    elim (Bool-cases (c == slash)) [
      | inl e ↦
          let same : part ++ name (c ∷ s) ≡ part =
            ap (◌++◌ part) (name-is_end (c ∷ s) e) ∙ append_nil part in
          name_ends (suc fuel) at (c ∷ s) part names e l plain (rw same at some_byte)
            (rw same at regular) h
      | inr e ↦
          let longer : part ++ name (c ∷ s) ≡ (part ++ c ∷ []) ++ name s =
            rw e (sym (append_assoc part (c ∷ []) (name s))) in
          ap (λ x. finished (loop fuel x.0 x.1))
            (round_copies c s (reverse_onto part (slash ∷ body names)) e)
          ∙ rw e (
              ap (λ x. finished (loop fuel s x))
                (sym (reverse_onto-snoc part c (slash ∷ body names)))
              ∙ within s (part ++ c ∷ []) names (omega arith) (is_plain-snoc part c plain e)
                  (rw longer at some_byte) (rw longer at regular) h)
    ]

-- After a run of slashes.
abbrev after : ℕ → Bytes → Bytes → Option Bytes
after fuel t out = finished (loop fuel (after_slash t out).0 (after_slash t out).1)

parent-AreNames : (names : List Bytes) → AreNames names → AreNames (parent names)
parent-AreNames [] h = h
parent-AreNames (p ∷ names) h = h.1

after-single :
    (fuel : ℕ)
    → AtSlash fuel
    → (t : Bytes) (names : List Bytes) → length t ≤ fuel
    → is_single t ≡ true
    → AreNames names
    → after fuel t (text names) ≡ some (text (resolve names (parts t)))
unfolding resolve
after-single fuel at t names l e h =
    let (q, ends) = parts-single t e in
    let shorter = length-rest_of t in rw (e, q) (at (rest_of t) names (omega arith) ends h)

after-double :
    (fuel : ℕ)
    → AtSlash fuel
    → (t : Bytes) (names : List Bytes) → length t ≤ fuel
    → is_single t ≡ false
    → is_double t ≡ true
    → AreNames names
    → after fuel t (text names) ≡ some (text (resolve names (parts t)))
unfolding resolve
after-double fuel at t names l n e h =
    let (q, ends) = parts-double t e in
    let shorter = length-rest_of t in
    let again = length-rest_of (rest_of t) in
    rw (n, e, q, up-text names h)
      (at (rest_of (rest_of t)) (parent names) (omega arith) ends (parent-AreNames names h))

is_dots-name : (t : Bytes) → is_single t ≡ false → is_double t ≡ false → is_dots (name t) ≡ false
is_dots-name t n d =
    let a = sym (is_single-name t) ∙ n in let b = sym (is_double-name t) ∙ d in rw (a, b) refl

after-name :
    (fuel : ℕ)
    → InName fuel
    → (s : Bytes) (names : List Bytes) → length s ≤ fuel
    → is_single (skip_slashes s) ≡ false
    → is_double (skip_slashes s) ≡ false
    → AreNames names
    → after fuel (skip_slashes s) (text names)
      ≡ some (text (resolve names (parts (skip_slashes s))))
unfolding resolve loop parts_from is_plain
after-name fuel within s names l n d h =
    rw (n, d, one_slash-text names h)
      (elim (skip_slashes_cases s) [
        | inl e ↦ rw e (ap some (finish-body names))
        | inr b ↦
            let shorter = length-skip_slashes s in
            within (skip_slashes s) [] names (omega arith) refl b
              (is_dots-name (skip_slashes s) n d) h
      ])

slash_goes_on : (fuel : ℕ) → AtSlash fuel → InName fuel → AtSlash (suc fuel)
unfolding loop parts_from resolve
slash_goes_on fuel at within [] names l e h = ap some (finish-text names h)
slash_goes_on fuel at within (c ∷ s) names l e h =
    let shorter = length-skip_slashes s in
    ap (λ x. finished (loop fuel x.0 x.1)) (round_stops c s (text names) e)
    ∙ next (Bool-cases (is_single (skip_slashes s))) (Bool-cases (is_double (skip_slashes s)))
    ∙ ap (λ x. some (text (resolve names x))) (parts-skip_slashes s)
    ∙ rw e refl
  where
    next :
        (is_single (skip_slashes s) ≡ true) ⊎ (is_single (skip_slashes s) ≡ false)
        → (is_double (skip_slashes s) ≡ true) ⊎ (is_double (skip_slashes s) ≡ false)
        → after fuel (skip_slashes s) (text names)
          ≡ some (text (resolve names (parts (skip_slashes s))))
    next (inl a) b =
        let shorter = length-skip_slashes s in
        after-single fuel at (skip_slashes s) names (omega arith) a h
    next (inr a) (inl b) =
        let shorter = length-skip_slashes s in
        after-double fuel at (skip_slashes s) names (omega arith) a b h
    next (inr a) (inr b) = after-name fuel within s names (omega arith) a b h

-- With enough fuel both hold.
pub loop-resolves : (fuel : ℕ) → AtSlash fuel × InName fuel
unfolding loop parts_from resolve name
loop-resolves zero = (at, within)
  where
    at : AtSlash zero
    at [] names l e h = ap some (finish-text names h)
    at (c ∷ s) names l e h = absurd (omega (arith, l))

    within : InName zero
    within [] part names l plain some_byte regular h =
        let same = append_nil part in
        name_ends zero at [] part names refl l plain (rw same at some_byte) (rw same at regular) h
    within (c ∷ s) part names l plain some_byte regular h = absurd (omega (arith, l))
loop-resolves (suc fuel) =
    let (at, within) = loop-resolves fuel in
    let next = slash_goes_on fuel at within in (next, name_goes_on fuel next within)
