-- ===== src/Path.antt =====
-- IXLandSystem/fs/path.c and include/ixland/ixland_path.h: the public half of the path subsystem.
-- A path is the list of its bytes; NULL is `none`. A result of -1 with `errno` is `err`. The C code
-- rewrites a path in its buffer: what it has written is a list of its own here, and it never is
-- longer than what was read.
pub mod Collapse
pub mod Confined
pub mod Dots
pub mod Hybrid
use ixland.Prelude.{
  ℕ, zero, suc, ◌+◌, Bool, true, false, ◌&&◌, ◌||◌, not, Option, none, some, List, [], ◌∷◌, ◌++◌,
  ◌==◌, ltb, leb, ◌-◌, if◌then◌else◌, length,
}
use ixland.Prelude.Text.{Bytes, codes, same_bytes, starts_with, contains, drop, take}
use ixland.Fd.Errno.{Errno, einval, enametoolong, enoent}
use ixland.Fd.Files.{Outcome, ok, err}

pub data PathType : Type 0 where
  invalid own_sandbox external virtual_linux absolute_host : PathType

abbrev pub slash : ℕ
slash = b'/'

abbrev pub dot : ℕ
dot = b'.'

abbrev has_virtual_prefix : Bytes → Bool
has_virtual_prefix s =
    same_bytes s (codes "/")
    || starts_with (codes "/bin/") s
    || starts_with (codes "/sbin/") s
    || starts_with (codes "/usr/") s
    || starts_with (codes "/lib/") s
    || starts_with (codes "/lib64/") s
    || starts_with (codes "/etc/") s
    || starts_with (codes "/var/") s
    || starts_with (codes "/home/") s
    || starts_with (codes "/root/") s
    || starts_with (codes "/tmp/") s
    || starts_with (codes "/dev/") s
    || starts_with (codes "/proc/") s
    || starts_with (codes "/sys/") s

unfoldable pub path_classify : Option Bytes → PathType
path_classify none = PathType.invalid
path_classify (some []) = PathType.invalid
path_classify (some (c ∷ s)) =
    if c == slash
    then (if has_virtual_prefix (c ∷ s) then PathType.virtual_linux else PathType.absolute_host)
    else PathType.virtual_linux

-- The loop of `ixland_path_normalize`: a run of slashes becomes one.
unfoldable pub collapse : Bool → Bytes → Bytes
collapse in_slash [] = []
collapse in_slash (c ∷ s) =
    let one_slash = collapse true s in
    let plain = collapse false s in
    if c == slash then (if in_slash then one_slash else c ∷ one_slash) else c ∷ plain

-- The last byte goes if it is a slash and not the only byte.
unfoldable pub strip_slash : Bytes → Bytes
strip_slash [] = []
strip_slash (c ∷ []) = c ∷ []
strip_slash (c ∷ d ∷ []) = if d == slash then c ∷ [] else c ∷ d ∷ []
strip_slash (c ∷ d ∷ e ∷ s) = c ∷ strip_slash (d ∷ e ∷ s)

abbrev pub normalized : Bytes → Bytes
normalized s = strip_slash (collapse false s)

-- `path_len` is the size of the buffer that holds the path.
unfoldable pub path_normalize : Option Bytes → ℕ → Outcome Bytes
path_normalize none path_len = err einval
path_normalize (some s) path_len =
    if path_len == 0
    then err einval
    else if leb path_len (length s)
    then err enametoolong
    else ok (normalized s)

-- `strncpy` into a buffer with room for the whole path.
abbrev pub copy_checked : Bytes → ℕ → Outcome Bytes
copy_checked s size = if leb size (length s) then err enametoolong else ok (take (size - 1) s)

abbrev default_root : Bytes
default_root = codes "/var/mobile/Containers/IXLand"

-- `getenv("IXLAND_ROOT")` or the default.
abbrev sandbox_root : Option Bytes → Bytes
sandbox_root none = default_root
sandbox_root (some root) = root

unfoldable pub translate_as : Bytes → Bytes → ℕ → PathType → Outcome Bytes
translate_as root s size PathType.invalid = err enoent
translate_as root s size PathType.own_sandbox = copy_checked s size
translate_as root s size PathType.external = err enoent
translate_as root s size PathType.virtual_linux =
    if leb size (length root + length s + 1)
    then err enametoolong
    else path_normalize (some (root ++ s)) size
translate_as root s size PathType.absolute_host = copy_checked s size

-- `size` is `host_path_len`, 0 also for a NULL buffer.
unfoldable pub path_translate : Option Bytes → Option Bytes → ℕ → Outcome Bytes
path_translate env none size = err einval
path_translate env (some s) size =
    if size == 0
    then err einval
    else translate_as (sandbox_root env) s size (path_classify (some s))

unfoldable pub path_reverse_translate : Option Bytes → Option Bytes → ℕ → Outcome Bytes
path_reverse_translate env none size = err einval
path_reverse_translate env (some s) size =
    if size == 0
    then err einval
    else if starts_with (sandbox_root env) s
    then copy_checked (drop (length (sandbox_root env)) s) size
    else copy_checked s size

abbrev pub max_path : ℕ
max_path = 4096

-- The loop that looks for a NUL before the closing one finds none.
unfoldable pub path_is_valid : Option Bytes → Bool
path_is_valid none = false
path_is_valid (some []) = false
path_is_valid (some (c ∷ s)) = not (leb max_path (length (c ∷ s)))

unfoldable pub path_is_safe : Option Bytes → Bool
path_is_safe none = false
path_is_safe (some s) = if path_is_valid (some s) then not (contains (codes "..") s) else false
