-- ===== src/Path/Dots/Resolved.antt =====
-- __ixland_path_normalize of an absolute path is the path of its names, with "." and ".." resolved.
use ixland.Prelude.{
  ℕ, suc, ◌≡◌, refl, ap, sym, ◌∙◌, true, false, List, [], ◌∷◌, arith, length, Bool-cases, inl, inr,
  ◌⊎◌, ◌≤◌, Option, none, some,
}
use ixland.Prelude.Text.{Bytes, reverse_onto}
use ixland.Path.{slash}
use ixland.Path.Collapse.{parts, parts_from}
use ixland.Path.Dots.{skip_slashes, is_single, rest_of, loop, start, finish, written, normalize}
use ixland.Path.Dots.Ends.{length-skip_slashes, length-rest_of}
use ixland.Path.Dots.Names.{
  is_dots, resolve, path_of, name, body, text, is_plain, reverse_onto-body, parts-skip_slashes,
  skip_slashes_cases, parts-single,
}
use ixland.Path.Dots.Rounds.{finished, loop-resolves}

written-finished :
    (o : Option Bytes) (out : Bytes)
    → finished o ≡ some out
    → written o ≡ some (reverse_onto out [])
written-finished none out h = cc
written-finished (some o) out h =
    let same : finish o ≡ out = cc in ap (λ x. some (reverse_onto x [])) same

reverse_onto-text : (names : List Bytes) → reverse_onto (text names) [] ≡ path_of names
unfolding body
reverse_onto-text [] = refl
reverse_onto-text (p ∷ names) = reverse_onto-body (p ∷ names) []

-- The first name, at the root.
entered :
    (fuel : ℕ) (x : Bytes)
    → length (skip_slashes x) ≤ fuel
    → is_dots (name (skip_slashes x)) ≡ false
    → finished (loop fuel (skip_slashes x) (slash ∷ [])) ≡ some (text (resolve [] (parts x)))
unfolding loop body resolve parts_from is_plain
entered fuel x l regular = elim (skip_slashes_cases x) [
  | inl e ↦
      rw e refl ∙ ap (λ ps. some (text (resolve [] ps))) (ap parts (sym e) ∙ parts-skip_slashes x)
  | inr b ↦
      (loop-resolves fuel).1 (skip_slashes x) [] [] l refl b regular tt
      ∙ ap (λ ps. some (text (resolve [] ps))) (parts-skip_slashes x)
]

begun :
    (s : Bytes)
    → is_dots (name (start (slash ∷ s)).0) ≡ false
    → (is_single (skip_slashes s) ≡ true) ⊎ (is_single (skip_slashes s) ≡ false)
    → finished (loop (suc (length s)) (start (slash ∷ s)).0 (start (slash ∷ s)).1)
      ≡ some (text (resolve [] (parts s)))
unfolding start resolve
begun s regular (inl e) =
    let run = length-skip_slashes s in
    let shorter = length-rest_of (skip_slashes s) in
    let again = length-skip_slashes (rest_of (skip_slashes s)) in
    rw e (entered (suc (length s)) (rest_of (skip_slashes s)) (omega arith) (rw e at regular))
    ∙ ap (λ ps. some (text (resolve [] ps)))
        (sym (parts-single (skip_slashes s) e).0 ∙ parts-skip_slashes s)
begun s regular (inr e) =
    let run = length-skip_slashes s in
    rw e (entered (suc (length s)) s (omega arith) (rw e at regular))

-- `__ixland_path_normalize` of an absolute path whose first name, after one leading ".", is neither "."
-- nor "..": the path of its names, in which every "." is left out and every ".." takes the name
-- before it away, or nothing at the root.
pub normalize-resolve :
    (s : Bytes)
    → is_dots (name (start (slash ∷ s)).0) ≡ false
    → normalize (slash ∷ s) ≡ some (path_of (resolve [] (parts s)))
unfolding normalize
normalize-resolve s regular =
    written-finished (loop (suc (length s)) (start (slash ∷ s)).0 (start (slash ∷ s)).1)
      (text (resolve [] (parts s))) (begun s regular (Bool-cases (is_single (skip_slashes s))))
    ∙ ap some (reverse_onto-text (resolve [] (parts s)))
