-- ===== src/Inject/Openbsd/TablesA.antt =====
-- wowFS/unreliablefs/unreliablefs_errno_openbsd.h: the tables from errno_access on.
use wow_so_distributed.Base.{ℕ, List, [], ◌∷◌}
use wow_so_distributed.Inject.BsdErrno.{
  eacces, eagain, ebadf, ebusy, edeadlk, edquot, eexist, efault, efbig, eintr, einval, eio, eisdir,
  eloop, emfile, emlink, enametoolong, enfile, enoent, enolck, enomem, enospc, enotconn, enotdir,
  enotempty, enxio, eperm, erofs, esrch, etxtbsy, ewouldblock, exdev,
}
use wow_so_distributed.Inject.Openbsd.Errno.{eopnotsupp, eoverflow}

abbrev pub errno_access : List ℕ
errno_access =
    eacces ∷ efault ∷ einval ∷ eio ∷ eloop ∷ enametoolong ∷ enoent ∷ enotdir ∷ eperm ∷ erofs
    ∷ etxtbsy ∷ []

abbrev pub errno_chmod : List ℕ
errno_chmod =
    eacces ∷ efault ∷ einval ∷ eio ∷ eloop ∷ enametoolong ∷ enoent ∷ enotdir ∷ eperm ∷ erofs ∷ []

abbrev pub errno_creat : List ℕ
errno_creat =
    eacces ∷ ebusy ∷ edquot ∷ eexist ∷ efault ∷ eintr ∷ einval ∷ eio ∷ eisdir ∷ eloop ∷ emfile
    ∷ enametoolong ∷ enfile ∷ enoent ∷ enospc ∷ enotdir ∷ enxio ∷ eopnotsupp ∷ eperm ∷ erofs
    ∷ etxtbsy ∷ ewouldblock ∷ []

abbrev pub errno_ftruncate : List ℕ
errno_ftruncate = ebadf ∷ efbig ∷ einval ∷ eio ∷ []

abbrev pub errno_link : List ℕ
errno_link =
    eacces ∷ edquot ∷ eexist ∷ efault ∷ eio ∷ eloop ∷ emlink ∷ enametoolong ∷ enoent ∷ enospc
    ∷ enotdir ∷ eopnotsupp ∷ eperm ∷ erofs ∷ exdev ∷ []

abbrev pub errno_mkdir : List ℕ
errno_mkdir =
    eacces ∷ edquot ∷ eexist ∷ efault ∷ eio ∷ eloop ∷ enametoolong ∷ enoent ∷ enospc ∷ enotdir
    ∷ erofs ∷ []

abbrev pub errno_mknod : List ℕ
errno_mknod =
    eacces ∷ edquot ∷ eexist ∷ efault ∷ einval ∷ eio ∷ eloop ∷ enametoolong ∷ enoent ∷ enospc
    ∷ enotdir ∷ eperm ∷ erofs ∷ []

abbrev pub errno_opendir : List ℕ
errno_opendir =
    enotdir ∷ eagain ∷ ebadf ∷ edeadlk ∷ eintr ∷ einval ∷ emfile ∷ enolck ∷ eoverflow ∷ esrch
    ∷ ebadf ∷ efault ∷ eio ∷ eacces ∷ ebusy ∷ edquot ∷ eexist ∷ efault ∷ eintr ∷ einval ∷ eio
    ∷ eisdir ∷ eloop ∷ emfile ∷ enametoolong ∷ enfile ∷ enoent ∷ enospc ∷ enotdir ∷ enxio
    ∷ eopnotsupp ∷ eperm ∷ erofs ∷ etxtbsy ∷ ewouldblock ∷ enomem ∷ []

abbrev pub errno_readdir : List ℕ
errno_readdir = ebadf ∷ efault ∷ einval ∷ eio ∷ []

abbrev pub errno_read : List ℕ
errno_read = eagain ∷ ebadf ∷ efault ∷ eintr ∷ einval ∷ eio ∷ eisdir ∷ enotconn ∷ []

abbrev pub errno_readlink : List ℕ
errno_readlink = eacces ∷ efault ∷ einval ∷ eio ∷ eloop ∷ enametoolong ∷ enoent ∷ enotdir ∷ []

abbrev pub errno_rename : List ℕ
errno_rename =
    eacces ∷ edquot ∷ efault ∷ einval ∷ eio ∷ eisdir ∷ eloop ∷ emlink ∷ enametoolong ∷ enoent
    ∷ enospc ∷ enotdir ∷ enotempty ∷ eperm ∷ erofs ∷ exdev ∷ []
