-- ===== src/Inject/TablesB.antt =====
-- wowFS/unreliablefs/unreliablefs_errno_linux.h: the tables from errno_truncate on.
use wow_so_distributed.Base.{ℕ, List, [], ◌∷◌}
use wow_so_distributed.Inject.Errno.{
  e2big, eacces, eagain, ebadf, ebusy, edeadlk, edestaddrreq, edquot, eexist, efault, efbig, eintr,
  einval, eio, eisdir, eloop, emfile, enametoolong, enodata, enodev, enoent, enolck, enomem, enospc,
  enosys, enotdir, enotsup, enotty, eopnotsupp, eoverflow, eperm, epipe, erange, erofs, espipe,
  esrch, etxtbsy, ewouldblock,
}

abbrev pub errno_truncate : List ℕ
errno_truncate =
    eacces ∷ efault ∷ efbig ∷ eintr ∷ einval ∷ eio ∷ eisdir ∷ eloop ∷ enametoolong ∷ enoent
    ∷ enotdir ∷ eperm ∷ erofs ∷ etxtbsy ∷ []

abbrev pub errno_unlink : List ℕ
errno_unlink =
    eacces ∷ ebusy ∷ efault ∷ eio ∷ eisdir ∷ eloop ∷ enametoolong ∷ enoent ∷ enomem ∷ enotdir ∷ []

abbrev pub errno_write : List ℕ
errno_write =
    eagain ∷ ewouldblock ∷ ebadf ∷ edestaddrreq ∷ edquot ∷ efault ∷ efbig ∷ eintr ∷ einval ∷ enospc
    ∷ eperm ∷ epipe ∷ []

abbrev pub errno_lstat : List ℕ
errno_lstat =
    eacces ∷ ebadf ∷ efault ∷ einval ∷ eloop ∷ enametoolong ∷ enoent ∷ enomem ∷ enotdir ∷ eoverflow
    ∷ []

abbrev pub errno_statfs : List ℕ
errno_statfs =
    eacces ∷ efault ∷ eintr ∷ eio ∷ eloop ∷ enametoolong ∷ enoent ∷ enomem ∷ enosys ∷ enotdir
    ∷ eoverflow ∷ []

abbrev pub errno_close : List ℕ
errno_close = ebadf ∷ edquot ∷ eintr ∷ eio ∷ enospc ∷ []

abbrev pub errno_utimensat : List ℕ
errno_utimensat =
    eacces ∷ ebadf ∷ efault ∷ einval ∷ eloop ∷ enametoolong ∷ enoent ∷ enotdir ∷ eperm ∷ erofs
    ∷ esrch ∷ []

abbrev pub errno_fsync : List ℕ
errno_fsync = ebadf ∷ edquot ∷ einval ∷ eio ∷ enospc ∷ erofs ∷ []

abbrev pub errno_setxattr : List ℕ
errno_setxattr =
    edquot ∷ eexist ∷ enodata ∷ enospc ∷ enotsup ∷ eperm ∷ erange ∷ eacces ∷ ebadf ∷ efault ∷ eloop
    ∷ enametoolong ∷ enoent ∷ enomem ∷ enotdir ∷ eoverflow ∷ []

abbrev pub errno_getxattr : List ℕ
errno_getxattr =
    e2big ∷ enodata ∷ enotsup ∷ erange ∷ eacces ∷ ebadf ∷ efault ∷ eloop ∷ enametoolong ∷ enoent
    ∷ enomem ∷ enotdir ∷ eoverflow ∷ []

abbrev pub errno_listxattr : List ℕ
errno_listxattr =
    e2big ∷ enotsup ∷ erange ∷ eacces ∷ ebadf ∷ efault ∷ eloop ∷ enametoolong ∷ enoent ∷ enomem
    ∷ enotdir ∷ eoverflow ∷ []

abbrev pub errno_removexattr : List ℕ
errno_removexattr =
    enodata ∷ enotsup ∷ eacces ∷ ebadf ∷ efault ∷ eloop ∷ enametoolong ∷ enoent ∷ enomem ∷ enotdir
    ∷ eoverflow ∷ []

abbrev pub errno_flock : List ℕ
errno_flock = ebadf ∷ eintr ∷ einval ∷ enolck ∷ ewouldblock ∷ []

abbrev pub errno_fallocate : List ℕ
errno_fallocate =
    ebadf ∷ efbig ∷ eintr ∷ einval ∷ eio ∷ enodev ∷ enospc ∷ enosys ∷ eopnotsupp ∷ eperm ∷ espipe
    ∷ etxtbsy ∷ []

abbrev pub errno_ioctl : List ℕ
errno_ioctl = ebadf ∷ efault ∷ einval ∷ enotty ∷ []

abbrev pub errno_fcntl : List ℕ
errno_fcntl =
    eacces ∷ eagain ∷ ebadf ∷ ebusy ∷ edeadlk ∷ efault ∷ eintr ∷ einval ∷ emfile ∷ enolck ∷ enotdir
    ∷ eperm ∷ []
