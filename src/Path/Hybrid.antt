-- ===== src/Path/Hybrid.antt =====
-- path.c, the private half after __ixland_path_normalize: joining, classification for the host, and
-- __ixland_path_resolve. `regexec`, `getcwd` and ixland_vfs_translate (declared in fs/vfs.h, defined
-- nowhere in the repository) are arguments. A NULL or empty buffer is size 0.
pub mod Routes
use ixland.Prelude.{
  ℕ, ◌+◌, ◌-◌, Bool, true, false, ◌&&◌, ◌||◌, not, Option, none, some, List, [], ◌∷◌, ◌++◌, ◌==◌,
  ltb, leb, if◌then◌else◌, length,
}
use ixland.Prelude.Text.{Bytes, codes, same_bytes, starts_with, contains, take}
use ixland.Fd.Errno.{einval, enametoolong}
use ixland.Fd.Files.{Outcome, ok, err}
use ixland.Path.{PathType, slash, copy_checked, max_path}
use ixland.Path.Dots.{normalize}

-- The three compiled patterns, as tests.
pub record Patterns : Type 0 where
  pub device : Bytes → Bool
  pub simulator : Bytes → Bool
  pub outside : Bytes → Bool

abbrev ends_in_slash : Bytes → Bool
ends_in_slash [] = false
ends_in_slash (c ∷ []) = c == slash
ends_in_slash (c ∷ d ∷ s) = ends_in_slash (d ∷ s)

-- `snprintf` of two texts into a buffer with room for them, with one slash between them.
abbrev pub with_slash : Bytes → Bytes → Bytes
with_slash base rel = if ends_in_slash base then base ++ rel else base ++ slash ∷ rel

abbrev pub is_absolute : Bytes → Bool
is_absolute [] = false
is_absolute (c ∷ s) = c == slash

-- `none`: the buffer is not written at all. A text that does not fit gives the empty one.
unfoldable path_join : Option Bytes → Option Bytes → ℕ → Option Bytes
path_join none rel size = if size == 0 then none else some []
path_join (some base) none size = if size == 0 then none else some []
path_join (some base) (some rel) size =
    if size == 0
    then none
    else if is_absolute rel
    then some (if leb size (length rel) then [] else rel)
    else some (if ltb size (length base + length rel + 2) then [] else with_slash base rel)

unfoldable path_in_sandbox : Option Bytes → Bool
path_in_sandbox path = true

-- The directory itself or what is below it.
abbrev is_under : Bytes → Bytes → Bool
is_under dir s = starts_with (dir ++ slash ∷ []) s || same_bytes s dir

abbrev is_linux : Bytes → Bool
is_linux s =
    is_under (codes "/home") s
    || is_under (codes "/tmp") s
    || is_under (codes "/etc") s
    || is_under (codes "/var") s
    || is_under (codes "/usr") s
    || is_under (codes "/bin") s
    || is_under (codes "/sbin") s
    || is_under (codes "/lib") s
    || is_under (codes "/root") s
    || is_under (codes "/dev") s

unfoldable pub path_is_virtual_linux : Option Bytes → Bool
path_is_virtual_linux none = false
path_is_virtual_linux (some []) = false
path_is_virtual_linux (some (c ∷ s)) = is_linux (c ∷ s)

unfoldable pub path_is_own_sandbox : Patterns → Option Bytes → Bool
path_is_own_sandbox m none = false
path_is_own_sandbox m (some []) = false
path_is_own_sandbox m (some (c ∷ s)) =
    m.device (c ∷ s)
    || m.simulator (c ∷ s)
    || (contains (codes "/Documents/") (c ∷ s) || contains (codes "/Documents") (c ∷ s))
    || (contains (codes "/Library/") (c ∷ s) || contains (codes "/Library") (c ∷ s))
    || (contains (codes "/tmp/") (c ∷ s) || contains (codes "/tmp") (c ∷ s))

unfoldable pub path_is_external : Patterns → Option Bytes → Bool
path_is_external m none = false
path_is_external m (some []) = false
path_is_external m (some (c ∷ s)) =
    m.outside (c ∷ s)
    || contains (codes "/Mobile Documents/") (c ∷ s)
    || contains (codes "/Containers/Shared/AppGroup/") (c ∷ s)
    || (not (path_is_virtual_linux (some (c ∷ s))) && not (path_is_own_sandbox m (some (c ∷ s))))

unfoldable pub hybrid_classify : Patterns → Option Bytes → PathType
hybrid_classify m none = PathType.invalid
hybrid_classify m (some []) = PathType.invalid
hybrid_classify m (some (c ∷ s)) =
    if path_is_virtual_linux (some (c ∷ s))
    then PathType.virtual_linux
    else if path_is_own_sandbox m (some (c ∷ s))
    then PathType.own_sandbox
    else if path_is_external m (some (c ∷ s))
    then PathType.external
    else PathType.external

-- `none` is a -1 that leaves `errno` as it is.
unfoldable virtual_to_ios : Option Bytes → ℕ → Option (Outcome Bytes)
virtual_to_ios none size = none
virtual_to_ios (some s) size =
    if size == 0
    then none
    else if not (path_is_virtual_linux (some s))
    then some (copy_checked s size)
    else some (copy_checked s size)

abbrev is_direct_type : PathType → Bool
is_direct_type PathType.own_sandbox = true
is_direct_type PathType.external = true
is_direct_type PathType.invalid = false
is_direct_type PathType.virtual_linux = false
is_direct_type PathType.absolute_host = false

unfoldable path_is_direct : Patterns → Option Bytes → Bool
path_is_direct m none = false
path_is_direct m (some []) = false
path_is_direct m (some (c ∷ s)) = is_direct_type (hybrid_classify m (some (c ∷ s)))

-- ixland_vfs_translate: a path and the size of the buffer to what it writes there, or its failure.
abbrev pub Translate : Type 0
Translate = Bytes → ℕ → Option Bytes

-- A path for the host: normalized, not translated.
abbrev pub resolve_direct : Bytes → ℕ → Option (Outcome Bytes)
resolve_direct s size =
    if leb size (length s)
    then some (err enametoolong)
    else elim (normalize (take (size - 1) s)) [ none ↦ none | some t ↦ some (ok t) ]

abbrev pub or_untranslated : Bytes → ℕ → Option Bytes → Outcome Bytes
or_untranslated t size none = copy_checked t size
or_untranslated t size (some host) = ok host

abbrev pub resolve_virtual : Translate → Bytes → ℕ → Option (Outcome Bytes)
resolve_virtual translate s size =
    if leb max_path (length s)
    then some (err enametoolong)
    else elim (normalize (take (max_path - 1) s)) [
      | none ↦ none
      | some t ↦ some (or_untranslated t size (translate t size))
    ]

-- What the last translation leaves in the buffer.
abbrev pub if_it_fits : Bytes → ℕ → Option Bytes → Bytes
if_it_fits t size none = t
if_it_fits t size (some host) = if ltb (length host) size then take (size - 1) host else t

abbrev pub is_virtual_type : PathType → Bool
is_virtual_type PathType.virtual_linux = true
is_virtual_type PathType.own_sandbox = false
is_virtual_type PathType.external = false
is_virtual_type PathType.invalid = false
is_virtual_type PathType.absolute_host = false

abbrev pub resolve_in : Patterns → Translate → Outcome Bytes → Bytes → ℕ → Option (Outcome Bytes)
resolve_in m translate (err e) s size = some (err e)
resolve_in m translate (ok cwd) s size =
    if leb size (length cwd + length s + 2)
    then some (err enametoolong)
    else elim (normalize (cwd ++ slash ∷ s)) [
      | none ↦ none
      | some t ↦
          if is_virtual_type (hybrid_classify m (some t))
          then some (ok (if_it_fits t size (translate t max_path)))
          else some (ok t)
    ]

abbrev pub resolve_as :
    Patterns → Translate → Outcome Bytes → Bytes → ℕ → PathType → Option (Outcome Bytes)
resolve_as m translate cwd s size PathType.own_sandbox = resolve_direct s size
resolve_as m translate cwd s size PathType.external = resolve_direct s size
resolve_as m translate cwd s size PathType.virtual_linux = resolve_virtual translate s size
resolve_as m translate cwd s size PathType.invalid = resolve_in m translate cwd s size
resolve_as m translate cwd s size PathType.absolute_host = resolve_in m translate cwd s size

-- `cwd` is what `getcwd` answers.
unfoldable pub path_resolve :
    Patterns → Translate → Outcome Bytes → Option Bytes → ℕ → Option (Outcome Bytes)
path_resolve m translate cwd none size = some (err einval)
path_resolve m translate cwd (some s) size =
    if size == 0
    then some (err einval)
    else resolve_as m translate cwd s size (hybrid_classify m (some s))
