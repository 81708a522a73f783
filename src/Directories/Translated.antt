-- ===== src/Directories/Translated.antt =====
-- namei.c: the host is asked about translated paths only.
use ixland.Prelude.{
  ℕ, ◌≡◌, refl, Bool, true, false, not, ◌&&◌, Option, none, some, List, [], ◌∷◌, if◌then◌else◌,
  ◌==◌, ◌⊎◌, inl, inr,
}
use ixland.Prelude.Text.{Bytes}
use ixland.Fd.Errno.{Errno, enotdir, eacces, eisdir, eperm, eexist, einval, enosys}
use ixland.Fd.Files.{Outcome, ok, err}
use ixland.Directories.{
  Names, Request, Run, failed, asks, asking, ◌then_ask◌, validate_path, translated, chdir, mkdir,
  rmdir, unlink, link, symlink, read_link, readlink, mkdirat, unlinkat, linkat, symlinkat,
  readlinkat, is_directory, is_symlink, is_there, names_directory,
}

-- `p` is what the translation of the argument gives.
abbrev IsOf : Names → Option Bytes → Bytes → Type 0
IsOf m none p = ⊥
IsOf m (some v) p = m.translate v ≡ ok p

-- What a call with the paths `a` and `b` and the text `text` may ask: about the translations of its paths,
-- and, as its last step, for the one of its first path, and of the second as a link's new name; only the
-- text of a symbolic link is not translated.
abbrev MayAsk : Names → (a b text : Option Bytes) → Request → Type 0
MayAsk m a b text (Request.ask_stat p) = IsOf m a p ⊎ IsOf m b p
MayAsk m a b text (Request.ask_lstat p) = IsOf m a p
MayAsk m a b text (Request.ask_access p) = IsOf m a p
MayAsk m a b text (Request.ask_chdir p) = IsOf m a p
MayAsk m a b text (Request.ask_mkdir p) = IsOf m a p
MayAsk m a b text (Request.ask_rmdir p) = IsOf m a p
MayAsk m a b text (Request.ask_unlink p) = IsOf m a p
MayAsk m a b text (Request.ask_readlink p) = IsOf m a p
MayAsk m a b text (Request.ask_link p q) = IsOf m a p × IsOf m b q
MayAsk m a b text (Request.ask_symlink target q) = (text ≡ some target) × IsOf m a q
MayAsk m a b text (Request.ask_fchdir fd) = ⊥

abbrev AllMayAsk : Names → (a b text : Option Bytes) → List Request → Type 0
AllMayAsk m a b text [] = Unit
AllMayAsk m a b text (r ∷ rs) = MayAsk m a b text r × AllMayAsk m a b text rs

abbrev EndsSafe : Names → (a b text : Option Bytes) → Outcome Request → Type 0
EndsSafe m a b text (err e) = Unit
EndsSafe m a b text (ok r) = MayAsk m a b text r

-- Everything that the call asks.
abbrev pub IsSafe : Names → (a b text : Option Bytes) → Run → Type 0
IsSafe m a b text run = AllMayAsk m a b text run.0 × EndsSafe m a b text run.1

module _ (m : Names) (a b text : Option Bytes) where
  -- A check that passes hands its value on.
  then_ask-IsSafe :
      {A : Type 0} (o : Outcome A) (f : A → Run)
      → ((x : A) → o ≡ ok x → IsSafe m a b text (f x))
      → IsSafe m a b text (o then_ask f)
  then_ask-IsSafe (err e) f h = (tt, tt)
  then_ask-IsSafe (ok x) f h = h x refl

  asking-IsSafe :
      (r : Request) (run : Run)
      → MayAsk m a b text r
      → IsSafe m a b text run
      → IsSafe m a b text (asking r run)
  asking-IsSafe r run may (first, last) = ((may, first), last)

  guard-IsSafe :
      (c : Bool) (e : Errno) (run : Run)
      → IsSafe m a b text run
      → IsSafe m a b text (if c then failed e else run)
  guard-IsSafe true e run h = (tt, tt)
  guard-IsSafe false e run h = h

  either-IsSafe :
      (c : Bool) (x y : Run)
      → IsSafe m a b text x
      → IsSafe m a b text y
      → IsSafe m a b text (if c then x else y)
  either-IsSafe true x y p q = p
  either-IsSafe false x y p q = q

translated-IsOf :
    (m : Names) (path : Option Bytes) (p : Bytes) → translated m path ≡ ok p → IsOf m path p
unfolding translated validate_path
translated-IsOf m none p h = cc
translated-IsOf m (some []) p h = cc
translated-IsOf m (some (c ∷ s)) p h = h

chdir-IsSafe : (m : Names) (path : Option Bytes) → IsSafe m path none none (chdir m path)
unfolding chdir
chdir-IsSafe m path = then_ask-IsSafe m path none none (translated m path) _ λ p h.
    let of_path = translated-IsOf m path p h in
    asking-IsSafe m path none none (Request.ask_stat p) _ (inl of_path) (
      then_ask-IsSafe m path none none (m.stat p) _ λ k s.
        guard-IsSafe m path none none (not (is_directory k)) enotdir _ (
          asking-IsSafe m path none none (Request.ask_access p) _ of_path (
            guard-IsSafe m path none none (not (m.may_search p)) eacces (asks (Request.ask_chdir p))
              (tt, of_path))))

mkdir-IsSafe : (m : Names) (path : Option Bytes) → IsSafe m path none none (mkdir m path)
unfolding mkdir
mkdir-IsSafe m path =
    then_ask-IsSafe m path none none (translated m path) _ λ p h. (tt, translated-IsOf m path p h)

rmdir-IsSafe : (m : Names) (path : Option Bytes) → IsSafe m path none none (rmdir m path)
unfolding rmdir
rmdir-IsSafe m path = then_ask-IsSafe m path none none (translated m path) _ λ p h.
    let of_path = translated-IsOf m path p h in
    asking-IsSafe m path none none (Request.ask_stat p) _ (inl of_path) (
      then_ask-IsSafe m path none none (m.stat p) _ λ k s.
        guard-IsSafe m path none none (not (is_directory k)) enotdir (asks (Request.ask_rmdir p))
          (tt, of_path))

unlink-IsSafe : (m : Names) (path : Option Bytes) → IsSafe m path none none (unlink m path)
unfolding unlink
unlink-IsSafe m path = then_ask-IsSafe m path none none (translated m path) _ λ p h.
    let of_path = translated-IsOf m path p h in
    asking-IsSafe m path none none (Request.ask_stat p) _ (inl of_path) (
      guard-IsSafe m path none none (names_directory (m.stat p)) eisdir
        (asks (Request.ask_unlink p)) (tt, of_path))

link-IsSafe : (m : Names) (old new : Option Bytes) → IsSafe m old new none (link m old new)
unfolding link
link-IsSafe m none new = (tt, tt)
link-IsSafe m (some old) none = (tt, tt)
link-IsSafe m (some []) (some new) = (tt, tt)
link-IsSafe m (some (c ∷ old)) (some []) = (tt, tt)
link-IsSafe m (some (c ∷ old)) (some (d ∷ new)) =
    let a = some (c ∷ old) in
    let b = some (d ∷ new) in
    then_ask-IsSafe m a b none (m.translate (c ∷ old)) _ λ p h.
      then_ask-IsSafe m a b none (m.translate (d ∷ new)) _ λ q i.
        asking-IsSafe m a b none (Request.ask_stat p) _ (inl h) (
          then_ask-IsSafe m a b none (m.stat p) _ λ k s.
            guard-IsSafe m a b none (is_directory k) eperm _ (
              asking-IsSafe m a b none (Request.ask_stat q) _ (inr i) (
                guard-IsSafe m a b none (is_there (m.stat q)) eexist (asks (Request.ask_link p q))
                  (tt, (h, i)))))

symlink-IsSafe :
    (m : Names) (target path : Option Bytes) → IsSafe m path none target (symlink m target path)
unfolding symlink
symlink-IsSafe m none path = (tt, tt)
symlink-IsSafe m (some target) none = (tt, tt)
symlink-IsSafe m (some target) (some []) = (tt, tt)
symlink-IsSafe m (some target) (some (c ∷ path)) =
    let a = some (c ∷ path) in
    then_ask-IsSafe m a none (some target) (m.translate (c ∷ path)) _ λ q h.
      asking-IsSafe m a none (some target) (Request.ask_stat q) _ (inl h) (
        guard-IsSafe m a none (some target) (is_there (m.stat q)) eexist
          (asks (Request.ask_symlink target q)) (tt, (refl, h)))

readlink-IsSafe :
    (m : Names) (path : Option Bytes) (buffer : Bool) (size : ℕ)
    → IsSafe m path none none (readlink m path buffer size)
unfolding readlink
readlink-IsSafe m none buffer size = (tt, tt)
readlink-IsSafe m (some path) false size = (tt, tt)
readlink-IsSafe m (some []) true size = (tt, tt)
readlink-IsSafe m (some (c ∷ path)) true size =
    let a = some (c ∷ path) in
    guard-IsSafe m a none none (size == 0) einval (read_link m (c ∷ path)) (
      then_ask-IsSafe m a none none (m.translate (c ∷ path)) _ λ p h.
        asking-IsSafe m a none none (Request.ask_lstat p) _ h (
          then_ask-IsSafe m a none none (m.lstat p) _ λ k s.
            guard-IsSafe m a none none (not (is_symlink k)) einval (asks (Request.ask_readlink p))
              (tt, h)))

-- Whatever their arguments and the host's answers, mkdirat, unlinkat, linkat, symlinkat and readlinkat
-- of IXLand, and so mkdir, rmdir, unlink, link, symlink and readlink, which they call, and chdir
-- ask the host, with stat, lstat and access too, only for what `ixland_vfs_translate` gave for their own
-- paths. A hard link goes from the translation of the old path to that of the new one; the text of a
-- symbolic link alone is not translated, and is the caller's.
pub calls-IsSafe :
    (m : Names) (here there removes buffer : Bool) (path other : Option Bytes) (size : ℕ)
    → IsSafe m path none none (chdir m path)
      × IsSafe m path none none (mkdirat m here path)
      × IsSafe m path none none (unlinkat m here path removes)
      × IsSafe m path other none (linkat m here path there other)
      × IsSafe m path none other (symlinkat m other here path)
      × IsSafe m path none none (readlinkat m here path buffer size)
unfolding mkdirat unlinkat linkat symlinkat readlinkat
calls-IsSafe m here there removes buffer path other size = (
  chdir-IsSafe m path,
  at_mkdir path,
  at_unlink path,
  at_link path other,
  at_symlink other path,
  at_readlink path buffer,
)
  where
    at_mkdir : (p : Option Bytes) → IsSafe m p none none (mkdirat m here p)
    at_mkdir none = (tt, tt)
    at_mkdir (some p) =
        either-IsSafe m (some p) none none here (mkdir m (some p)) (failed enosys)
          (mkdir-IsSafe m (some p)) (tt, tt)

    at_unlink : (p : Option Bytes) → IsSafe m p none none (unlinkat m here p removes)
    at_unlink none = (tt, tt)
    at_unlink (some p) =
        either-IsSafe m (some p) none none here
          (if removes then rmdir m (some p) else unlink m (some p)) (failed enosys)
          (either-IsSafe m (some p) none none removes (rmdir m (some p)) (unlink m (some p))
            (rmdir-IsSafe m (some p)) (unlink-IsSafe m (some p)))
          (tt, tt)

    at_link : (p q : Option Bytes) → IsSafe m p q none (linkat m here p there q)
    at_link none q = (tt, tt)
    at_link (some p) none = (tt, tt)
    at_link (some p) (some q) =
        either-IsSafe m (some p) (some q) none (here && there) (link m (some p) (some q))
          (failed enosys) (link-IsSafe m (some p) (some q)) (tt, tt)

    at_symlink : (t p : Option Bytes) → IsSafe m p none t (symlinkat m t here p)
    at_symlink none p = (tt, tt)
    at_symlink (some t) none = (tt, tt)
    at_symlink (some t) (some p) =
        either-IsSafe m (some p) none (some t) here (symlink m (some t) (some p)) (failed enosys)
          (symlink-IsSafe m (some t) (some p)) (tt, tt)

    at_readlink : (p : Option Bytes) (c : Bool) → IsSafe m p none none (readlinkat m here p c size)
    at_readlink none c = (tt, tt)
    at_readlink (some p) false = (tt, tt)
    at_readlink (some p) true =
        either-IsSafe m (some p) none none here (readlink m (some p) true size) (failed enosys)
          (readlink-IsSafe m (some p) true size) (tt, tt)
