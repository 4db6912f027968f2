-- ===== src/Inject/Macosx/TablesB.antt =====
-- wowFS/unreliablefs/unreliablefs_errno_macosx.h: the tables from errno_truncate on.
use wow_so_distributed.Base.{ℕ, List, [], ◌∷◌}
use wow_so_distributed.Inject.BsdErrno.{
  e2big, eacces, eagain, ebadf, ebusy, econnreset, edeadlk, edquot, eexist, efault, efbig, eintr,
  einval, eio, eisdir, eloop, emfile, enametoolong, enetdown, enetunreach, enoent, enolck, enospc,
  enotdir, enotty, enxio, eperm, epipe, erange, erofs, esrch, etxtbsy, ewouldblock,
}
use wow_so_distributed.Inject.Macosx.Errno.{enoattr, enotsup, eoverflow}

abbrev pub errno_truncate : List ℕ
errno_truncate =
    eacces ∷ efault ∷ efbig ∷ eintr ∷ einval ∷ eio ∷ eisdir ∷ eloop ∷ enametoolong ∷ enoent
    ∷ enotdir ∷ erofs ∷ etxtbsy ∷ []

abbrev pub errno_unlink : List ℕ
errno_unlink =
    eacces ∷ ebusy ∷ efault ∷ eio ∷ eloop ∷ enametoolong ∷ enoent ∷ enotdir ∷ eperm ∷ erofs ∷ []

abbrev pub errno_write : List ℕ
errno_write =
    eagain ∷ ebadf ∷ econnreset ∷ edquot ∷ efault ∷ efbig ∷ eintr ∷ einval ∷ eio ∷ enetdown
    ∷ enetunreach ∷ enospc ∷ enxio ∷ epipe ∷ ewouldblock ∷ []

abbrev pub errno_lstat : List ℕ
errno_lstat = eacces ∷ efault ∷ eio ∷ eloop ∷ enametoolong ∷ enoent ∷ enotdir ∷ eoverflow ∷ []

abbrev pub errno_statfs : List ℕ
errno_statfs = eacces ∷ efault ∷ eio ∷ eloop ∷ enametoolong ∷ enoent ∷ enotdir ∷ []

abbrev pub errno_close : List ℕ
errno_close = ebadf ∷ eintr ∷ eio ∷ []

abbrev pub errno_utimensat : List ℕ
errno_utimensat =
    eacces ∷ ebadf ∷ efault ∷ einval ∷ eio ∷ eloop ∷ enametoolong ∷ enoent ∷ enotdir ∷ eperm ∷ erofs
    ∷ esrch ∷ []

abbrev pub errno_fsync : List ℕ
errno_fsync = ebadf ∷ eintr ∷ einval ∷ eio ∷ []

abbrev pub errno_setxattr : List ℕ
errno_setxattr =
    e2big ∷ eacces ∷ eexist ∷ efault ∷ einval ∷ eio ∷ eloop ∷ enametoolong ∷ enoattr ∷ enospc
    ∷ enotdir ∷ enotsup ∷ eperm ∷ erange ∷ erofs ∷ []

abbrev pub errno_getxattr : List ℕ
errno_getxattr =
    eacces ∷ efault ∷ einval ∷ eio ∷ eisdir ∷ eloop ∷ enametoolong ∷ enoattr ∷ enotdir ∷ enotsup
    ∷ eperm ∷ erange ∷ []

abbrev pub errno_listxattr : List ℕ
errno_listxattr =
    eacces ∷ efault ∷ einval ∷ eio ∷ eloop ∷ enametoolong ∷ enotdir ∷ enotsup ∷ eperm ∷ erange ∷ []

abbrev pub errno_removexattr : List ℕ
errno_removexattr =
    eacces ∷ efault ∷ einval ∷ eio ∷ eloop ∷ enametoolong ∷ enoattr ∷ enotdir ∷ enotsup ∷ eperm
    ∷ erofs ∷ []

abbrev pub errno_flock : List ℕ
errno_flock = ebadf ∷ einval ∷ enotsup ∷ ewouldblock ∷ []

abbrev pub errno_ioctl : List ℕ
errno_ioctl = ebadf ∷ einval ∷ enotty ∷ []

abbrev pub errno_fcntl : List ℕ
errno_fcntl = eacces ∷ ebadf ∷ edeadlk ∷ eintr ∷ einval ∷ emfile ∷ enolck ∷ eoverflow ∷ esrch ∷ []
