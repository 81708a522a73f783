-- ===== src/Dirents.antt =====
-- IXLandSystem/fs/readdir.c and dirent.h: getdents64 on the library's descriptor table. dup, fdopendir and
-- the entries that readdir gives, with the place that telldir names after each, are an argument. The
-- records are a list; their bytes in the buffer are counted. The loop ends as readdir has finitely
-- many entries.
pub mod Pieces
use ixland.Prelude.{
  ℕ, zero, suc, ◌+◌, ◌-◌, ◌*◌, ◌/◌, ◌%◌, ◌^◌, Bool, true, false, Option, none, some, List, [], ◌∷◌,
  ◌==◌, ltb, length, if◌then◌else◌,
}
use ixland.Prelude.Int.{ℤ, pos, negsuc}
use ixland.Prelude.Text.{Bytes}
use ixland.Fd.Errno.{Errno, efault, einval, ebadf}
use ixland.Fd.Files.{Outcome, ok, err}
use ixland.Fd.Static.{FdTable, get_fd_entry, get_fd_offset, set_fd_offset}

-- `d_type` of the host.
pub data NativeType : Type 0 where
  fifo chr dir blk reg lnk sock wht other : NativeType

unfoldable map_dtype : NativeType → ℕ
map_dtype NativeType.fifo = 1
map_dtype NativeType.chr = 2
map_dtype NativeType.dir = 4
map_dtype NativeType.blk = 6
map_dtype NativeType.reg = 8
map_dtype NativeType.lnk = 10
map_dtype NativeType.sock = 12
map_dtype NativeType.wht = 14
map_dtype NativeType.other = 0

-- A `struct dirent` of the host, and the place after it.
pub record Native : Type 0 where
  pub ino : ℕ
  pub name : Bytes
  pub kind : NativeType
  pub place : ℤ

-- `struct ixland_dirent_64`; `padding` zeros follow the name's NUL.
pub record Dirent : Type 0 where
  pub ino : ℕ
  pub off : ℤ
  pub reclen : ℕ
  pub kind : ℕ
  pub name : Bytes
  pub padding : ℕ

-- `offsetof(struct ixland_dirent_64, d_name)` is 19.
abbrev record_len : Native → ℕ
record_len n = 19 + length n.name + 1

-- `(record_len + 7U) & ~7U`.
unfoldable pub aligned_len : Native → ℕ
aligned_len n = (record_len n + 7) / 8 * 8

unfoldable dirent_of : Native → Dirent
unfolding map_dtype aligned_len
dirent_of n = record {
  ino = n.ino;
  off = n.place;
  reclen = aligned_len n % 2 ^ 16;
  kind = map_dtype n.kind;
  name = n.name;
  padding = aligned_len n - record_len n;
}

abbrev pub before : Dirent → Outcome (List Dirent × ℤ) → Outcome (List Dirent × ℤ)
before d (err e) = err e
before d (ok (ds, latest)) = ok (d ∷ ds, latest)

-- readdir gives NULL; `error` is `errno` then, if it is not 0.
abbrev at_end : Option Errno → Bool → ℤ → Outcome (List Dirent × ℤ)
at_end (some e) true latest = err e
at_end _ _ latest = ok ([], latest)

-- The loop: `room` is `count - written`, and `fresh` says that nothing is written yet.
unfoldable pub fill : Option Errno → List Native → ℕ → Bool → ℤ → Outcome (List Dirent × ℤ)
unfolding dirent_of
fill error [] room fresh latest = at_end error fresh latest
fill error (n ∷ ns) room fresh latest =
    let rest = before (dirent_of n) (fill error ns (room - aligned_len n) false n.place) in
    if ltb room (aligned_len n) then (if fresh then err einval else ok ([], latest)) else rest

-- The host: whether dup and fdopendir succeed, and what the stream gives, from the start or after
-- seekdir, with the error at its end. The code moves a new stream to a place that telldir gave for an older
-- one, which is closed by then; POSIX leaves open what readdir gives after that, so that `entries` is any
-- list.
pub record Host : Type 0 where
  pub dup : Outcome ℕ
  pub opendir : Outcome ℕ
  pub entries : Option ℤ → List Native
  pub error : Option Errno

-- `saved_offset > 0` makes a seekdir.
abbrev pub seek_to : ℤ → Option ℤ
seek_to (negsuc n) = none
seek_to (pos zero) = none
seek_to (pos (suc n)) = some (pos (suc n))

abbrev pub stored : ℕ → Outcome (List Dirent × ℤ) → FdTable → Outcome (List Dirent) × FdTable
stored i (err e) t = (err e, t)
stored i (ok (ds, latest)) t = (ok ds, set_fd_offset i latest t)

abbrev read_stream : Host → ℕ → ℕ → FdTable → Outcome (List Dirent) × FdTable
read_stream host count i t =
    stored i
      (fill host.error (host.entries (seek_to (get_fd_offset i t))) count true (get_fd_offset i t))
      t

abbrev pub open_stream :
    Host → ℕ → ℕ → Outcome ℕ → Outcome ℕ → FdTable → Outcome (List Dirent) × FdTable
open_stream host count i (err e) opened t = (err e, t)
open_stream host count i (ok n) (err e) t = (err e, t)
open_stream host count i (ok n) (ok dp) t = read_stream host count i t

abbrev pub on_entry : Host → ℕ → Option ℕ → FdTable → Outcome (List Dirent) × FdTable
on_entry host count none t = (err ebadf, t)
on_entry host count (some i) t = open_stream host count i host.dup host.opendir t

-- The flag says whether the buffer is there; the result is the records in it.
unfoldable pub getdents64 : Host → ℤ → Bool → ℕ → FdTable → Outcome (List Dirent) × FdTable
unfolding fill
getdents64 host fd false count t = (err efault, t)
getdents64 host fd true count t =
    if count == 0 then (err einval, t) else on_entry host count (get_fd_entry fd t) t
