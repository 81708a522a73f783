-- ===== src/Examples/Paths.antt =====
-- The two normalizers, the translation below the root, and a resolution.
use ixland.Prelude.{
  ◌≡◌, refl, subst, true, false, none, some, List, ◌∷◌, ◌++◌, arith, ltb, length, ◌<◌, ◌≤◌,
  if◌then◌else◌, Bool-cases, inl, inr,
}
use ixland.Prelude.Text.{Bytes, codes, starts_with}
use ixland.Fd.Errno.{enoent}
use ixland.Fd.Files.{ok, err}
use ixland.Path.{
  PathType, slash, path_classify, path_translate, path_reverse_translate, path_is_safe,
  path_is_valid, collapse, strip_slash,
}
use ixland.Path.Collapse.{parts, parts_from, is_collapsed}
use ixland.Path.Confined.{Lacks, path_translate-Lacks, path_reverse_translate-path_translate}
use ixland.Path.Dots.{skip_slashes, back, loop, start, normalize}
use ixland.Path.Dots.Ends.{normalize-ends}
use ixland.Path.Dots.Names.{is_dots, name, resolve, path_onto}
use ixland.Path.Dots.Resolved.{normalize-resolve}
use ixland.Path.Hybrid.{Patterns, Translate, path_resolve}
use ixland.Path.Hybrid.Routes.{StaysInside, Answers, path_resolve-Answers}

abbrev winding : Bytes
winding = codes "usr//lib/../bin/./sh/"

winding-starts : is_dots (name (start (slash ∷ winding)).0) ≡ false
unfolding name start skip_slashes
winding-starts = refl

normalize-resolve_example : normalize (codes "/usr//lib/../bin/./sh/") ≡ some (codes "/usr/bin/sh")
unfolding resolve path_onto parts_from
normalize-resolve_example = normalize-resolve winding winding-starts

-- A leading ".." stays where it is.
leading_dots : normalize (codes "/../x") ≡ some (codes "/../x")
unfolding normalize loop start skip_slashes
leading_dots = refl

-- So does every "." of a leading run but the first.
leading_dot : normalize (codes "/././x") ≡ some (codes "/./x")
unfolding normalize loop start skip_slashes
leading_dot = refl

-- The first byte of a relative path outlives a "..".
relative_dots : normalize (codes "ab/../c") ≡ some (codes "a/c")
unfolding normalize loop start skip_slashes back
relative_dots = refl

normalize-ends_example : (t : Bytes) × (normalize (codes "/a/..") ≡ some t) × (length t ≤ 5)
normalize-ends_example = normalize-ends (codes "/a/..")

classified : path_classify (some (codes "/bin/sh")) ≡ PathType.virtual_linux
unfolding path_classify
classified = refl

is_safe : path_is_safe (some (codes "/bin/sh")) ≡ true
unfolding path_is_safe path_is_valid
is_safe = refl

path_translate-Lacks_example :
    (t : Bytes) × (below : List Bytes) × (path_translate
        (some (codes "/data"))
        (some (codes "/bin/sh"))
        64
      ≡ ok t)
    × (parts t ≡ parts (codes "/data") ++ below)
    × Lacks below
path_translate-Lacks_example =
    path_translate-Lacks (codes "/data") (codes "bin/sh") 64 classified is_safe (omega arith)

data-IsRoot : is_collapsed false (codes "/data/") ≡ true
unfolding is_collapsed
data-IsRoot = refl

path_reverse_translate-path_translate_example :
    (path_translate (some (codes "/data")) (some (codes "/bin/sh")) 64 ≡ ok (codes "/data/bin/sh"))
    × (path_reverse_translate (some (codes "/data")) (some (codes "/data/bin/sh")) 64
        ≡ ok (codes "/bin/sh"))
unfolding collapse strip_slash
path_reverse_translate-path_translate_example =
    path_reverse_translate-path_translate (codes "/data") b'b' (codes "in/sh") 64 data-IsRoot refl
      classified (omega arith)

-- A path beside the root that begins with its name is taken for one below it.
beside_root :
    path_reverse_translate none (some (codes "/var/mobile/Containers/IXLandEvil")) 64
    ≡ ok (codes "Evil")
unfolding path_reverse_translate
beside_root = refl

abbrev few_patterns : Patterns
few_patterns = record {
  device = starts_with (codes "/var/mobile/Containers/Data/Application/");
  simulator = λ s. false;
  outside = starts_with (codes "file-provider://");
}

abbrev mounted : Translate
mounted t size = if ltb (length (codes "/m" ++ t)) size then some (codes "/m" ++ t) else none

mounted-StaysInside : StaysInside mounted
mounted-StaysInside t size host h = elim (Bool-cases (ltb (length (codes "/m" ++ t)) size)) [
  | inl e ↦
      let q : some (codes "/m" ++ t) ≡ some host = rw e at h in
      let r : codes "/m" ++ t ≡ host = cc in
      let s : length (codes "/m" ++ t) < size = ground arith in subst (λ x. length x < size) r s
  | inr e ↦ (let q : none ≡ some host = rw e at h in cc)
]

path_resolve-Answers_example :
    Answers 128 (path_resolve few_patterns mounted (err enoent) (some (codes "/etc/hosts")) 128)
path_resolve-Answers_example =
    path_resolve-Answers few_patterns mounted (err enoent) (some (codes "/etc/hosts")) 128
      mounted-StaysInside
