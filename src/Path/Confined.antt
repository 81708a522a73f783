-- ===== src/Path/Confined.antt =====
-- path.c: a virtual path translates to a path below the sandbox root, and comes back from there.
use ixland.Prelude.{
  append_assoc, ℕ, zero, suc, ◌+◌, ◌-◌, ◌≡◌, ◌≢◌, refl, ap, sym, ◌∙◌, Bool, true, false, List, [],
  ◌∷◌, ◌++◌, arith, ◌==◌, length, Bool-cases, inl, inr, ◌<◌, ◌≤◌, some, ==_refl, leb, length-append,
}
use ixland.Prelude.Text.{Bytes, codes, starts_with, contains, drop, take}
use ixland.Fd.Files.{ok}
use ixland.Path.{
  PathType, slash, collapse, strip_slash, normalized, path_classify, path_translate,
  path_reverse_translate, path_is_safe, translate_as, copy_checked,
}
use ixland.Path.Collapse.{
  is_collapsed, parts, parts_from, closed, normalized_ok, length-normalized, parts-normalized,
}

-- A text that a slash may follow: no two slashes meet in it, and the last byte is none.
abbrev IsRoot : Bytes → Type 0
IsRoot root = is_collapsed false (root ++ slash ∷ []) ≡ true

-- None of the parts is "..".
abbrev pub Lacks : List Bytes → Type 0
Lacks [] = Unit
Lacks (p ∷ ps) = (p ≢ codes "..") × Lacks ps

starts_with-append : (a b : Bytes) → starts_with a (a ++ b) ≡ true
starts_with-append [] b = refl
starts_with-append (x ∷ a) b = rw (==_refl x) (starts_with-append a b)

drop-append : (a b : Bytes) → drop (length a) (a ++ b) ≡ b
drop-append [] b = refl
drop-append (x ∷ a) b = drop-append a b

take_all : (n : ℕ) (s : Bytes) → length s ≤ n → take n s ≡ s
take_all zero [] h = refl
take_all zero (x ∷ s) h = absurd (omega (arith, h))
take_all (suc n) [] h = refl
take_all (suc n) (x ∷ s) h = ap (◌∷◌ x) (take_all n s (omega arith))

collapse-append :
    (b : Bool) (root s : Bytes)
    → is_collapsed b (root ++ slash ∷ []) ≡ true
    → collapse b (root ++ slash ∷ s) ≡ root ++ slash ∷ collapse true s
unfolding collapse is_collapsed
collapse-append b [] s h = ground arith
collapse-append b (c ∷ root) s h =
    ground (arith, collapse-append true root s, collapse-append false root s)

strip_slash-append :
    (root : Bytes) (c d : ℕ) (s : Bytes)
    → strip_slash (root ++ c ∷ d ∷ s) ≡ root ++ strip_slash (c ∷ d ∷ s)
unfolding strip_slash
strip_slash-append [] c d s = refl
strip_slash-append (a ∷ []) c d s = refl
strip_slash-append (a ∷ b ∷ []) c d s = refl
strip_slash-append (a ∷ b ∷ e ∷ root) c d s = ap (◌∷◌ a) (strip_slash-append (b ∷ e ∷ root) c d s)

normalized-append :
    (root : Bytes) (c : ℕ) (s : Bytes)
    → IsRoot root
    → (c == slash) ≡ false
    → normalized (root ++ slash ∷ c ∷ s) ≡ root ++ normalized (slash ∷ c ∷ s)
unfolding collapse
normalized-append root c s h q =
    ap strip_slash (collapse-append false root (c ∷ s) h)
    ∙ rw q (strip_slash-append root slash c (collapse false s))

path_translate_virtual :
    (root s : Bytes) (size : ℕ)
    → path_classify (some s) ≡ PathType.virtual_linux
    → length root + length s + 1 < size
    → path_translate (some root) (some s) size ≡ ok (normalized (root ++ s))
unfolding path_translate translate_as
path_translate_virtual root s size virtual room =
    let lengths = length-append root s in
    let some_room : (size == 0) ≡ false = ground arith in
    let fits : leb size (length root + length s + 1) ≡ false = ground arith in
    rw (some_room, virtual, fits) (normalized_ok (root ++ s) size (omega arith))

copy_checked_all : (s : Bytes) (size : ℕ) → length s < size → copy_checked s size ≡ ok s
copy_checked_all s size h =
    let fits : leb size (length s) ≡ false = ground arith in
    rw fits (ap ok (take_all (size - 1) s (omega arith)))

path_reverse_translate_below :
    (root s : Bytes) (size : ℕ)
    → length s < size
    → path_reverse_translate (some root) (some (root ++ s)) size ≡ ok s
unfolding path_reverse_translate
path_reverse_translate_below root s size h =
    let some_room : (size == 0) ≡ false = ground arith in
    rw (some_room, starts_with-append root s, drop-append root s) (copy_checked_all s size h)

-- With a sandbox root in which no two slashes meet and whose last byte is no slash, an absolute virtual
-- path whose second byte is no slash, and a buffer with room for both and two bytes more,
-- `ixland_path_translate` gives the root followed by the normalized path, and
-- `ixland_path_reverse_translate` of that gives the normalized path.
pub path_reverse_translate-path_translate :
    (root : Bytes) (c : ℕ) (s : Bytes) (size : ℕ)
    → IsRoot root
    → (c == slash) ≡ false
    → path_classify (some (slash ∷ c ∷ s)) ≡ PathType.virtual_linux
    → length root + length (slash ∷ c ∷ s) + 1 < size
    → (path_translate (some root) (some (slash ∷ c ∷ s)) size
        ≡ ok (root ++ normalized (slash ∷ c ∷ s)))
      × (path_reverse_translate (some root) (some (root ++ normalized (slash ∷ c ∷ s))) size
          ≡ ok (normalized (slash ∷ c ∷ s)))
path_reverse_translate-path_translate root c s size h q virtual room =
    let shorter = length-normalized (slash ∷ c ∷ s) in
    (
      path_translate_virtual root (slash ∷ c ∷ s) size virtual room
          ∙ ap ok (normalized-append root c s h q),
      path_reverse_translate_below root (normalized (slash ∷ c ∷ s)) size (omega arith),
    )

contains-right : (q a b : Bytes) → contains q (a ++ b) ≡ false → contains q b ≡ false
contains-right q [] b h = h
contains-right q (x ∷ a) b h = contains-right q a b (ground arith)

starts_with-left : (q a b : Bytes) → starts_with q (a ++ b) ≡ false → starts_with q a ≡ false
starts_with-left [] a b h = absurd (ground (arith, h))
starts_with-left (x ∷ q) [] b h = refl
starts_with-left (x ∷ q) (y ∷ a) b h = ground (arith, starts_with-left q a b)

contains-left : (q a b : Bytes) → contains q (a ++ b) ≡ false → contains q a ≡ false
contains-left q [] [] h = h
contains-left q [] (y ∷ b) h = starts_with-left q [] (y ∷ b) (ground arith)
contains-left q (x ∷ a) b h =
    let here = starts_with-left q (x ∷ a) b (ground arith) in ground (arith, contains-left q a b)

true≢false : true ≢ false
true≢false e = cc

closed-Lacks :
    (part : Bytes) (ps : List Bytes)
    → contains (codes "..") part ≡ false
    → Lacks ps
    → Lacks (closed part ps)
closed-Lacks [] ps h l = l
closed-Lacks (c ∷ part) ps h l =
    (λ e. absurd (true≢false (ap (contains (codes "..")) (sym e) ∙ h)), l)

-- A text without ".." has no part "..".
parts_from-Lacks :
    (s part : Bytes) → contains (codes "..") (part ++ s) ≡ false → Lacks (parts_from s part)
unfolding parts_from
parts_from-Lacks [] part h = closed-Lacks part [] (contains-left (codes "..") part [] h) tt
parts_from-Lacks (c ∷ s) part h = elim (Bool-cases (c == slash)) [
  | inl e ↦ rw e (
      closed-Lacks part (parts_from s []) (contains-left (codes "..") part (c ∷ s) h) (
        parts_from-Lacks s []
          (contains-right (codes "..") (part ++ c ∷ []) s (rw (append_assoc part (c ∷ []) s) h))))
  | inr e ↦ rw e (parts_from-Lacks s (part ++ c ∷ []) (rw (append_assoc part (c ∷ []) s) h))
]

closed-append : (part : Bytes) (p q : List Bytes) → closed part (p ++ q) ≡ closed part p ++ q
closed-append [] p q = refl
closed-append (c ∷ part) p q = refl

parts_from-append :
    (root s part : Bytes) → parts_from (root ++ slash ∷ s) part ≡ parts_from root part ++ parts s
unfolding parts_from
parts_from-append [] s [] = refl
parts_from-append [] s (x ∷ part) = refl
parts_from-append (c ∷ root) s part = elim (Bool-cases (c == slash)) [
  | inl e ↦ rw e (
      ap (closed part) (parts_from-append root s [])
      ∙ closed-append part (parts_from root []) (parts s))
  | inr e ↦ rw e (parts_from-append root s (part ++ c ∷ []))
]

path_is_safe-contains : (s : Bytes) → path_is_safe (some s) ≡ true → contains (codes "..") s ≡ false
unfolding path_is_safe
path_is_safe-contains s h = ground arith

-- With any sandbox root, an absolute virtual path that `ixland_path_is_safe` accepts, and a buffer with
-- room for both and two bytes more, `ixland_path_translate` succeeds, and the parts of the path it gives
-- are those of the root followed by parts of which none is "..".
pub path_translate-Lacks :
    (root s : Bytes) (size : ℕ)
    → path_classify (some (slash ∷ s)) ≡ PathType.virtual_linux
    → path_is_safe (some (slash ∷ s)) ≡ true
    → length root + length (slash ∷ s) + 1 < size
    → (t : Bytes) × (below : List Bytes) × (path_translate (some root) (some (slash ∷ s)) size
        ≡ ok t)
      × (parts t ≡ parts root ++ below)
      × Lacks below
path_translate-Lacks root s size virtual safe room = (
  normalized (root ++ slash ∷ s),
  parts s,
  path_translate_virtual root (slash ∷ s) size virtual room,
  parts-normalized (root ++ slash ∷ s) ∙ parts_from-append root s [],
  parts_from-Lacks s []
      (contains-right (codes "..") (slash ∷ []) s (path_is_safe-contains (slash ∷ s) safe)),
)
