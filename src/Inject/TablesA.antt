-- ===== src/Inject/TablesA.antt =====
-- wowFS/unreliablefs/unreliablefs_errno_linux.h: the tables from errno_access on.
use wow_so_distributed.Base.{ℕ, List, [], ◌∷◌}
use wow_so_distributed.Inject.Errno.{
  eacces, eagain, ebadf, ebusy, edquot, eexist, efault, efbig, eintr, einval, eio, eisdir, eloop,
  emfile, emlink, enametoolong, enfile, enodev, enoent, enomem, enospc, enotdir, enotempty, enxio,
  eopnotsupp, eoverflow, eperm, erofs, etxtbsy, ewouldblock, exdev,
}

abbrev pub errno_access : List ℕ
errno_access =
    eacces ∷ eloop ∷ enametoolong ∷ enoent ∷ enotdir ∷ erofs ∷ efault ∷ einval ∷ eio ∷ enomem
    ∷ etxtbsy ∷ []

abbrev pub errno_chmod : List ℕ
errno_chmod =
    eacces ∷ efault ∷ eio ∷ eloop ∷ enametoolong ∷ enoent ∷ enomem ∷ enotdir ∷ eperm ∷ erofs ∷ []

abbrev pub errno_creat : List ℕ
errno_creat =
    eacces ∷ edquot ∷ eexist ∷ efault ∷ efbig ∷ eintr ∷ einval ∷ eisdir ∷ eloop ∷ emfile
    ∷ enametoolong ∷ enfile ∷ enodev ∷ enoent ∷ enomem ∷ enospc ∷ enotdir ∷ enxio ∷ eopnotsupp
    ∷ eoverflow ∷ eperm ∷ erofs ∷ etxtbsy ∷ ewouldblock ∷ []

abbrev pub errno_ftruncate : List ℕ
errno_ftruncate =
    eacces ∷ ebadf ∷ efault ∷ efbig ∷ eintr ∷ einval ∷ eio ∷ eisdir ∷ eloop ∷ enametoolong ∷ enotdir
    ∷ eperm ∷ erofs ∷ etxtbsy ∷ []

abbrev pub errno_link : List ℕ
errno_link =
    eacces ∷ edquot ∷ eexist ∷ efault ∷ eio ∷ eloop ∷ emlink ∷ enametoolong ∷ enoent ∷ enomem
    ∷ enospc ∷ enotdir ∷ eperm ∷ erofs ∷ exdev ∷ []

abbrev pub errno_mkdir : List ℕ
errno_mkdir =
    eacces ∷ edquot ∷ eexist ∷ efault ∷ einval ∷ eloop ∷ emlink ∷ enametoolong ∷ enoent ∷ enomem
    ∷ enospc ∷ enotdir ∷ eperm ∷ erofs ∷ []

abbrev pub errno_mknod : List ℕ
errno_mknod =
    eacces ∷ edquot ∷ eexist ∷ efault ∷ einval ∷ eloop ∷ enametoolong ∷ enoent ∷ enomem ∷ enospc
    ∷ enotdir ∷ eperm ∷ erofs ∷ []

abbrev pub errno_opendir : List ℕ
errno_opendir = eacces ∷ ebadf ∷ emfile ∷ enoent ∷ enomem ∷ enotdir ∷ []

abbrev pub errno_readdir : List ℕ
errno_readdir = ebadf ∷ []

abbrev pub errno_read : List ℕ
errno_read = eagain ∷ ewouldblock ∷ ebadf ∷ efault ∷ eintr ∷ einval ∷ eio ∷ eisdir ∷ []

abbrev pub errno_readlink : List ℕ
errno_readlink =
    eacces ∷ efault ∷ einval ∷ eio ∷ eloop ∷ enametoolong ∷ enoent ∷ enomem ∷ enotdir ∷ []

abbrev pub errno_rename : List ℕ
errno_rename =
    eacces ∷ ebusy ∷ edquot ∷ eexist ∷ efault ∷ einval ∷ eisdir ∷ eloop ∷ emlink ∷ enametoolong
    ∷ enoent ∷ enomem ∷ enospc ∷ enotdir ∷ enotempty ∷ eperm ∷ erofs ∷ []

abbrev pub errno_rmdir : List ℕ
errno_rmdir =
    eacces ∷ ebusy ∷ efault ∷ einval ∷ eloop ∷ enametoolong ∷ enoent ∷ enomem ∷ enotdir ∷ enotempty
    ∷ eperm ∷ erofs ∷ []

abbrev pub errno_symlink : List ℕ
errno_symlink =
    eacces ∷ edquot ∷ eexist ∷ efault ∷ eio ∷ eloop ∷ enametoolong ∷ enoent ∷ enomem ∷ enospc
    ∷ enotdir ∷ eperm ∷ erofs ∷ []
