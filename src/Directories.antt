-- ===== src/Directories.antt =====
-- IXLandSystem/fs/namei.c: the checks of the calls on directories and links, and what they ask the host.
-- ixland_vfs_translate and ixland_vfs_reverse_translate, which no file of the repository defines, and
-- the host's stat, lstat, access and getcwd are arguments. A call lists what it asks the host; the last
-- step is its final request, and the host's answer to that is the result. A NULL argument is `none`.
pub mod Translated
use ixland.Prelude.{
  ℕ, Bool, true, false, ◌&&◌, ◌||◌, not, Option, none, some, List, [], ◌∷◌, ◌==◌, ltb, leb,
  if◌then◌else◌, length,
}
use ixland.Prelude.Int.{ℤ, pos, negsuc}
use ixland.Prelude.Text.{Bytes}
use ixland.Fd.Errno.{
  Errno, efault, enoent, enotdir, eacces, ebadf, einval, erange, eisdir, eperm, eexist, enosys,
}
use ixland.Fd.Files.{Outcome, ok, err}
use ixland.Fd.Static.{max_fd}

pub data Kind : Type 0 where
  directory symbolic other : Kind

pub record Names : Type 0 where
  pub translate : Bytes → Outcome Bytes
  pub reverse_translate : Bytes → Option Bytes
  pub stat : Bytes → Outcome Kind
  pub lstat : Bytes → Outcome Kind
  pub may_search : Bytes → Bool
  pub getcwd : Outcome Bytes

-- What the host is asked: the checks of a path, and the last steps of the calls.
pub data Request : Type 0 where
  ask_stat ask_lstat ask_access : (path : Bytes) → Request
  ask_chdir ask_mkdir ask_rmdir ask_unlink ask_readlink : (path : Bytes) → Request
  ask_link : (old new : Bytes) → Request
  ask_symlink : (target path : Bytes) → Request
  ask_fchdir : (fd : ℕ) → Request

-- A call: what it asks the host first, in order, and its last request, or the error it fails with.
abbrev pub Run : Type 0
Run = List Request × Outcome Request

abbrev pub failed : Errno → Run
failed e = ([], err e)

abbrev pub asks : Request → Run
asks r = ([], ok r)

abbrev pub asking : Request → Run → Run
asking r run = (r ∷ run.0, run.1)

infixl 5 ◌then_ask◌
abbrev pub ◌then_ask◌ {ℓ} : {A : Type ℓ} → Outcome A → (A → Run) → Run
(err e) then_ask f = failed e
(ok a) then_ask f = f a

unfoldable pub validate_path : Option Bytes → Outcome Bytes
validate_path none = err efault
validate_path (some []) = err enoent
validate_path (some (c ∷ s)) = ok (c ∷ s)

infixl 5 ◌then_do◌
abbrev pub ◌then_do◌ {ℓ} : {A B : Type ℓ} → Outcome A → (A → Outcome B) → Outcome B
(err e) then_do f = err e
(ok a) then_do f = f a

-- The path checked and translated.
unfoldable pub translated : Names → Option Bytes → Outcome Bytes
translated m path = validate_path path then_do m.translate

abbrev pub is_directory : Kind → Bool
is_directory Kind.directory = true
is_directory Kind.symbolic = false
is_directory Kind.other = false

abbrev pub is_symlink : Kind → Bool
is_symlink Kind.directory = false
is_symlink Kind.symbolic = true
is_symlink Kind.other = false

unfoldable pub chdir : Names → Option Bytes → Run
chdir m path = translated m path then_ask λ p. asking (Request.ask_stat p) (
    m.stat p then_ask λ k.
    if not (is_directory k)
    then failed enotdir
    else asking (Request.ask_access p)
        (if not (m.may_search p) then failed eacces else asks (Request.ask_chdir p)))

unfoldable fchdir : ℤ → Run
fchdir (negsuc n) = failed ebadf
fchdir (pos fd) = if leb max_fd fd || leb fd 2 then failed ebadf else asks (Request.ask_fchdir fd)

abbrev or_host : Bytes → Option Bytes → Bytes
or_host cwd none = cwd
or_host cwd (some path) = path

-- What is copied to the caller's buffer; `buffer` says whether it is there.
unfoldable pub getcwd : Names → Bool → ℕ → Outcome Bytes
getcwd m buffer size =
    if size == 0
    then err einval
    else if not buffer
    then err einval
    else (m.getcwd then_do λ cwd.
        if leb size (length (or_host cwd (m.reverse_translate cwd)))
        then err erange
        else ok (or_host cwd (m.reverse_translate cwd)))

unfoldable pub mkdir : Names → Option Bytes → Run
mkdir m path = translated m path then_ask λ p. asks (Request.ask_mkdir p)

unfoldable pub rmdir : Names → Option Bytes → Run
rmdir m path = translated m path then_ask λ p. asking (Request.ask_stat p) (
    m.stat p then_ask λ k.
    if not (is_directory k) then failed enotdir else asks (Request.ask_rmdir p))

abbrev pub names_directory : Outcome Kind → Bool
names_directory (err e) = false
names_directory (ok k) = is_directory k

unfoldable pub unlink : Names → Option Bytes → Run
unlink m path = translated m path then_ask λ p.
    asking (Request.ask_stat p)
      (if names_directory (m.stat p) then failed eisdir else asks (Request.ask_unlink p))

abbrev pub is_there : Outcome Kind → Bool
is_there (err e) = false
is_there (ok k) = true

abbrev pub link_to : Names → Bytes → Bytes → Run
link_to m p q = asking (Request.ask_stat p) (
    m.stat p then_ask λ k.
    if is_directory k
    then failed eperm
    else asking (Request.ask_stat q)
        (if is_there (m.stat q) then failed eexist else asks (Request.ask_link p q)))

unfoldable pub link : Names → Option Bytes → Option Bytes → Run
link m none new = failed efault
link m (some old) none = failed efault
link m (some []) (some new) = failed enoent
link m (some (c ∷ old)) (some []) = failed enoent
link m (some (c ∷ old)) (some (d ∷ new)) =
    m.translate (c ∷ old) then_ask λ p. m.translate (d ∷ new) then_ask λ q. link_to m p q

unfoldable pub symlink : Names → Option Bytes → Option Bytes → Run
symlink m none path = failed efault
symlink m (some target) none = failed efault
symlink m (some target) (some []) = failed enoent
symlink m (some target) (some (c ∷ path)) = m.translate (c ∷ path) then_ask λ q.
    asking (Request.ask_stat q)
      (if is_there (m.stat q) then failed eexist else asks (Request.ask_symlink target q))

-- After the checks of the path and of the size.
abbrev pub read_link : Names → Bytes → Run
read_link m path = m.translate path then_ask λ p. asking (Request.ask_lstat p) (
    m.lstat p then_ask λ k.
    if not (is_symlink k) then failed einval else asks (Request.ask_readlink p))

unfoldable pub readlink : Names → Option Bytes → Bool → ℕ → Run
readlink m none buffer size = failed efault
readlink m (some path) false size = failed efault
readlink m (some []) true size = failed enoent
readlink m (some (c ∷ path)) true size = if size == 0 then failed einval else read_link m (c ∷ path)

unfoldable chroot : Option Bytes → Run
chroot path = failed eperm

-- `here` says whether the directory's descriptor is AT_FDCWD.
unfoldable pub mkdirat : Names → Bool → Option Bytes → Run
mkdirat m here none = failed efault
mkdirat m here (some path) = if here then mkdir m (some path) else failed enosys

-- `removes` is the test of the flags for AT_REMOVEDIR.
unfoldable pub unlinkat : Names → Bool → Option Bytes → Bool → Run
unlinkat m here none removes = failed efault
unlinkat m here (some path) removes =
    if here then (if removes then rmdir m (some path) else unlink m (some path)) else failed enosys

unfoldable pub linkat : Names → Bool → Option Bytes → Bool → Option Bytes → Run
linkat m here none there new = failed efault
linkat m here (some old) there none = failed efault
linkat m here (some old) there (some new) =
    if here && there then link m (some old) (some new) else failed enosys

unfoldable pub symlinkat : Names → Option Bytes → Bool → Option Bytes → Run
symlinkat m none here path = failed efault
symlinkat m (some target) here none = failed efault
symlinkat m (some target) here (some path) =
    if here then symlink m (some target) (some path) else failed enosys

unfoldable pub readlinkat : Names → Bool → Option Bytes → Bool → ℕ → Run
readlinkat m here none buffer size = failed efault
readlinkat m here (some path) false size = failed efault
readlinkat m here (some path) true size =
    if here then readlink m (some path) true size else failed enosys
