-- ===== src/Fd/Errno.antt =====
-- The values of `errno` that the modelled code sets.

pub data Errno : Type 0 where
  eperm enoent esrch eintr ebadf echild eagain enomem eacces efault eexist enotdir eisdir : Errno
  einval emfile espipe enoexec erange enosys enametoolong eafnosupport eopnotsupp enotconn epipe :
      Errno
  econnreset econnrefused etimedout eio efbig enospc erofs : Errno
