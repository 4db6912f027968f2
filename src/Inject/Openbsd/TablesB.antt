-- ===== src/Inject/Openbsd/TablesB.antt =====
-- wowFS/unreliablefs/unreliablefs_errno_openbsd.h: the tables from errno_rmdir on.
use wow_so_distributed.Base.{ℕ, List, [], ◌∷◌}
use wow_so_distributed.Inject.BsdErrno.{
  eacces, eagain, ebadf, ebusy, edeadlk, edestaddrreq, edquot, eexist, efault, efbig, eintr, einval,
  eio, eisdir, eloop, emfile, enametoolong, enetdown, enoent, enolck, enospc, enotdir, enotempty,
  eperm, epipe, erofs, esrch, etxtbsy, ewouldblock,
}
use wow_so_distributed.Inject.Openbsd.Errno.{eopnotsupp, eoverflow}

abbrev pub errno_rmdir : List ℕ
errno_rmdir =
    eacces ∷ ebusy ∷ efault ∷ einval ∷ eio ∷ eloop ∷ enametoolong ∷ enoent ∷ enotdir ∷ enotempty
    ∷ eperm ∷ erofs ∷ []

abbrev pub errno_symlink : List ℕ
errno_symlink =
    eacces ∷ edquot ∷ eexist ∷ efault ∷ eio ∷ eloop ∷ enametoolong ∷ enoent ∷ enospc ∷ enotdir
    ∷ erofs ∷ []

abbrev pub errno_truncate : List ℕ
errno_truncate =
    eacces ∷ efault ∷ efbig ∷ einval ∷ eio ∷ eisdir ∷ eloop ∷ enametoolong ∷ enoent ∷ enotdir
    ∷ erofs ∷ etxtbsy ∷ []

abbrev pub errno_unlink : List ℕ
errno_unlink =
    eacces ∷ ebusy ∷ efault ∷ eio ∷ eloop ∷ enametoolong ∷ enoent ∷ enotdir ∷ eperm ∷ erofs ∷ []

abbrev pub errno_write : List ℕ
errno_write =
    eagain ∷ ebadf ∷ edestaddrreq ∷ edquot ∷ efault ∷ efbig ∷ eintr ∷ einval ∷ eio ∷ enetdown
    ∷ enospc ∷ epipe ∷ []

abbrev pub errno_lstat : List ℕ
errno_lstat = eacces ∷ efault ∷ eio ∷ eloop ∷ enametoolong ∷ enoent ∷ enotdir ∷ []

abbrev pub errno_statfs : List ℕ
errno_statfs = eacces ∷ efault ∷ eio ∷ eloop ∷ enametoolong ∷ enoent ∷ enotdir ∷ []

abbrev pub errno_close : List ℕ
errno_close = ebadf ∷ eintr ∷ eio ∷ []

abbrev pub errno_utimensat : List ℕ
errno_utimensat =
    eacces ∷ ebadf ∷ efault ∷ einval ∷ eio ∷ eloop ∷ enametoolong ∷ enoent ∷ enotdir ∷ eperm ∷ erofs
    ∷ []

abbrev pub errno_fsync : List ℕ
errno_fsync = ebadf ∷ einval ∷ eio ∷ []

abbrev pub errno_flock : List ℕ
errno_flock = ebadf ∷ einval ∷ eopnotsupp ∷ ewouldblock ∷ []

abbrev pub errno_fcntl : List ℕ
errno_fcntl = eagain ∷ ebadf ∷ edeadlk ∷ eintr ∷ einval ∷ emfile ∷ enolck ∷ eoverflow ∷ esrch ∷ []
