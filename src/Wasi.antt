-- ===== src/Wasi.antt =====
-- IXLandWasm/ixland-wasm-engine/wamr/ixland_wamr.c: the WASI calls of a WebAssembly program and their table
-- of descriptors. The runtime and the host are arguments: whether the instance is there (`inst`) and the
-- addresses that a call is given lie in its memory (`mapped`), and what write, read, lseek, close,
-- ixland_vfs_open and clock_gettime answer. What a call stores through its pointers is its result.
pub mod Opening
pub mod Strings
pub mod Load
pub mod Files
pub mod Environment
pub mod Released
use Prim.Native.Nat.{bit_and, bit_or}
use ixland.Prelude.{
  ℕ, zero, suc, ◌+◌, ◌-◌, ◌*◌, ◌%◌, ◌^◌, Bool, true, false, not, ◌&&◌, ◌||◌, Option, none, some,
  List, [], ◌∷◌, ◌++◌, ◌==◌, ltb, if◌then◌else◌, length, replicate,
}
use ixland.Prelude.Int.{ℤ, pos, negsuc, is_neg}
use ixland.Prelude.Text.{Bytes, codes, take, drop}
use ixland.Fd.Errno.{Errno}
use ixland.Fd.Files.{Outcome, ok, err}

-- The values __WASI_E... that the calls give, but __WASI_ESUCCESS.
pub data WasiErrno : Type 0 where
  eperm enoent eio ebadf enomem eacces eexist enotdir eisdir einval emfile efbig : WasiErrno
  enospc espipe erofs enametoolong efault : WasiErrno

-- __WASI_ESUCCESS with what is stored, or an error.
pub data Reply {ℓ} (A : Type ℓ) : Type ℓ where
  done : A → Reply A
  fail : WasiErrno → Reply A

unfoldable pub errno_to_wasi : Errno → WasiErrno
errno_to_wasi Errno.eperm = WasiErrno.eperm
errno_to_wasi Errno.enoent = WasiErrno.enoent
errno_to_wasi Errno.eio = WasiErrno.eio
errno_to_wasi Errno.ebadf = WasiErrno.ebadf
errno_to_wasi Errno.enomem = WasiErrno.enomem
errno_to_wasi Errno.eacces = WasiErrno.eacces
errno_to_wasi Errno.eexist = WasiErrno.eexist
errno_to_wasi Errno.enotdir = WasiErrno.enotdir
errno_to_wasi Errno.eisdir = WasiErrno.eisdir
errno_to_wasi Errno.einval = WasiErrno.einval
errno_to_wasi Errno.emfile = WasiErrno.emfile
errno_to_wasi Errno.efbig = WasiErrno.efbig
errno_to_wasi Errno.enospc = WasiErrno.enospc
errno_to_wasi Errno.espipe = WasiErrno.espipe
errno_to_wasi Errno.erofs = WasiErrno.erofs
errno_to_wasi Errno.enametoolong = WasiErrno.enametoolong
errno_to_wasi _ = WasiErrno.einval

-- What strncpy writes.
abbrev pub strncpy : ℕ → Bytes → Bytes
strncpy n s = take n s ++ replicate (n - length s) 0

-- What strcpy leaves in an array.
abbrev strcpy : Bytes → Bytes → Bytes
strcpy s old = s ++ (0 ∷ drop (length s + 1) old)

-- An entry; `path` has the 1024 bytes of the array, and `preopened` and `is_dir` are the bytes of the flags.
pub record FdEntry : Type 0 where
  pub real_fd : ℤ
  pub wasi_fd : ℤ
  pub preopened : ℕ
  pub path : Bytes
  pub is_dir : ℕ

abbrev pub wasi_max_fd : ℕ
wasi_max_fd = 128

-- The table, and the host's descriptors that were closed, the last one first.
pub record Table : Type 0 where
  pub entries : ℕ → FdEntry
  pub closed : List ℤ

-- All bytes 0xff.
abbrev pub blank : FdEntry
blank = record {
  real_fd = negsuc 0;
  wasi_fd = negsuc 0;
  preopened = 255;
  path = replicate 1024 255;
  is_dir = 255;
}

abbrev pub put_entry : Table → ℕ → FdEntry → Table
put_entry t i e = record t { entries = λ j. if j == i then e else t.entries j }

abbrev preopen : ℕ → Bytes → FdEntry
preopen i name = record blank {
  real_fd = pos i;
  wasi_fd = pos i;
  preopened = 1;
  path = strcpy name blank.path;
}

-- ixland_wamr_init.
unfoldable pub wamr_init : Table → Table
wamr_init t =
    put_entry
      (put_entry (put_entry (record t { entries = λ i. blank }) 0 (preopen 0 (codes "/dev/stdin")))
        1 (preopen 1 (codes "/dev/stdout")))
      2 (preopen 2 (codes "/dev/stderr"))

-- One round of ixland_wamr_deinit.
abbrev pub close_one : ℕ → Table → Table
close_one i t =
    if is_neg (t.entries i).real_fd
    then t
    else record (put_entry t i (record (t.entries i) { real_fd = negsuc 0 })) {
      closed = (t.entries i).real_fd ∷ t.closed;
    }

-- Its loop: `n` rounds from `i` up.
unfoldable close_from : ℕ → ℕ → Table → Table
close_from zero i t = t
close_from (suc n) i t = close_from n (suc i) (close_one i t)

unfoldable wamr_deinit : Table → Table
wamr_deinit t = close_from (wasi_max_fd - 3) 3 t

-- The host's descriptor of a number.
unfoldable pub real_of : Table → ℤ → ℤ
real_of t (negsuc n) = negsuc n
real_of t (pos fd) =
    if ltb fd wasi_max_fd && not (is_neg (t.entries fd).real_fd)
    then (t.entries fd).real_fd
    else pos fd

-- The tests that a call begins with.
abbrev pub checked {ℓ} : {A : Type ℓ} → Bool → Bool → Reply A → Reply A
checked inst mapped r =
    if not inst then fail WasiErrno.einval else if not mapped then fail WasiErrno.efault else r

-- An `iovs[i]`: whether its buffer is mapped, and its length; with the host's answer for it.
pub record Iov : Type 0 where
  pub mapped : Bool
  pub buf_len : ℕ
  pub answer : ℤ → Outcome ℕ

-- The loop of fd_write, with the bytes written so far; it stops after a short write.
unfoldable write_all : ℤ → List Iov → ℕ → Reply ℕ
write_all fd [] total = done (total % 2 ^ 32)
write_all fd (v ∷ vs) total =
    let rest = λ (n : ℕ). write_all fd vs (total + n) in
    if not v.mapped then fail WasiErrno.efault else elim (v.answer fd) [
      | err e ↦ fail (errno_to_wasi e)
      | ok n ↦ if ltb n v.buf_len then done ((total + n) % 2 ^ 32) else rest n
    ]

-- The loop of fd_read; it stops at the end of the file.
unfoldable read_all : ℤ → List Iov → ℕ → Reply ℕ
read_all fd [] total = done (total % 2 ^ 32)
read_all fd (v ∷ vs) total =
    let rest = λ (n : ℕ). read_all fd vs (total + n) in
    if not v.mapped then fail WasiErrno.efault else elim (v.answer fd) [
      | err e ↦ fail (errno_to_wasi e)
      | ok n ↦ if n == 0 then done (total % 2 ^ 32) else rest n
    ]

unfoldable fd_write : Bool → Bool → ℤ → List Iov → Table → Reply ℕ
unfolding write_all real_of errno_to_wasi
fd_write inst mapped fd iovs t = checked inst mapped (write_all (real_of t fd) iovs 0)

unfoldable fd_read : Bool → Bool → ℤ → List Iov → Table → Reply ℕ
unfolding read_all real_of errno_to_wasi
fd_read inst mapped fd iovs t = checked inst mapped (read_all (real_of t fd) iovs 0)

-- After the host's close.
abbrev pub closed_entry : ℕ → Table → Outcome ℕ → Reply (Unit {0}) × Table
closed_entry i t (err e) = (fail (errno_to_wasi e), t)
closed_entry i t (ok n) = (
  done tt,
  record (put_entry t i (record (t.entries i) { real_fd = negsuc 0; wasi_fd = negsuc 0 })) {
    closed = (t.entries i).real_fd ∷ t.closed;
  },
)

-- `close` is the host's answer for a descriptor.
abbrev pub close_entry : (ℤ → Outcome ℕ) → ℕ → Table → Reply (Unit {0}) × Table
close_entry close i t = closed_entry i t (close (t.entries i).real_fd)

unfoldable pub fd_close : (ℤ → Outcome ℕ) → ℤ → Table → Reply (Unit {0}) × Table
unfolding errno_to_wasi
fd_close close (negsuc n) t = (fail WasiErrno.ebadf, t)
fd_close close (pos i) t =
    if ltb i wasi_max_fd && not (is_neg (t.entries i).real_fd)
    then close_entry close i t
    else (fail WasiErrno.ebadf, t)

-- __WASI_WHENCE_SET, _CUR and _END, and any other number.
pub data Whence : Type 0 where
  set cur end other : Whence

abbrev reply_of : Outcome ℕ → Reply ℕ
reply_of (err e) = fail (errno_to_wasi e)
reply_of (ok n) = done n

-- `lseek` is the host's, for a descriptor, the offset and the place that it counts from.
abbrev seek_in : (ℤ → ℤ → Whence → Outcome ℕ) → ℤ → ℤ → Whence → Reply ℕ
seek_in lseek fd offset Whence.other = fail WasiErrno.einval
seek_in lseek fd offset whence = reply_of (lseek fd offset whence)

unfoldable fd_seek : Bool → Bool → (ℤ → ℤ → Whence → Outcome ℕ) → ℤ → ℤ → Whence → Table → Reply ℕ
unfolding real_of errno_to_wasi
fd_seek inst mapped lseek fd offset whence t =
    checked inst mapped (seek_in lseek (real_of t fd) offset whence)
