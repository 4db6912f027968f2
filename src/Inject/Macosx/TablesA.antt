-- ===== src/Inject/Macosx/TablesA.antt =====
-- wowFS/unreliablefs/unreliablefs_errno_macosx.h: the tables from errno_access on.
use wow_so_distributed.Base.{ℕ, List, [], ◌∷◌}
use wow_so_distributed.Inject.BsdErrno.{
  eacces, eagain, ebadf, ebusy, econnreset, edquot, eexist, efault, efbig, eintr, einval, eio,
  eisdir, eloop, emfile, emlink, enametoolong, enfile, enobufs, enoent, enomem, enospc, enotconn,
  enotdir, enotempty, enxio, eperm, erofs, etimedout, etxtbsy, exdev,
}
use wow_so_distributed.Inject.Macosx.Errno.{eopnotsupp, eoverflow}

abbrev pub errno_access : List ℕ
errno_access =
    eacces ∷ efault ∷ einval ∷ eio ∷ eloop ∷ enametoolong ∷ enoent ∷ enotdir ∷ erofs ∷ etxtbsy ∷ []

abbrev pub errno_chmod : List ℕ
errno_chmod =
    eacces ∷ efault ∷ eintr ∷ eio ∷ eloop ∷ enametoolong ∷ enoent ∷ enotdir ∷ eperm ∷ erofs ∷ []

abbrev pub errno_creat : List ℕ
errno_creat =
    eacces ∷ eagain ∷ edquot ∷ eexist ∷ efault ∷ eintr ∷ einval ∷ eio ∷ eisdir ∷ eloop ∷ emfile
    ∷ enametoolong ∷ enfile ∷ enoent ∷ enospc ∷ enotdir ∷ enxio ∷ eopnotsupp ∷ eoverflow ∷ erofs
    ∷ etxtbsy ∷ []

abbrev pub errno_ftruncate : List ℕ
errno_ftruncate = ebadf ∷ efbig ∷ eintr ∷ einval ∷ eio ∷ erofs ∷ []

abbrev pub errno_link : List ℕ
errno_link =
    eacces ∷ edquot ∷ eexist ∷ efault ∷ eio ∷ eloop ∷ emlink ∷ enametoolong ∷ enoent ∷ enospc
    ∷ enotdir ∷ eperm ∷ erofs ∷ exdev ∷ []

abbrev pub errno_mkdir : List ℕ
errno_mkdir =
    eacces ∷ edquot ∷ eexist ∷ efault ∷ eio ∷ eloop ∷ emlink ∷ enametoolong ∷ enoent ∷ enospc
    ∷ enotdir ∷ erofs ∷ []

abbrev pub errno_mknod : List ℕ
errno_mknod =
    eacces ∷ edquot ∷ eexist ∷ efault ∷ einval ∷ eio ∷ eloop ∷ enametoolong ∷ enoent ∷ enospc
    ∷ enotdir ∷ eperm ∷ erofs ∷ []

abbrev pub errno_opendir : List ℕ
errno_opendir = []

abbrev pub errno_readdir : List ℕ
errno_readdir = []

abbrev pub errno_read : List ℕ
errno_read =
    eagain ∷ ebadf ∷ econnreset ∷ efault ∷ eintr ∷ einval ∷ eio ∷ eisdir ∷ enobufs ∷ enomem
    ∷ enotconn ∷ enxio ∷ etimedout ∷ []

abbrev pub errno_readlink : List ℕ
errno_readlink = eacces ∷ efault ∷ einval ∷ eio ∷ eloop ∷ enametoolong ∷ enoent ∷ enotdir ∷ []

abbrev pub errno_rename : List ℕ
errno_rename =
    eacces ∷ edquot ∷ efault ∷ einval ∷ eio ∷ eisdir ∷ eloop ∷ enametoolong ∷ enoent ∷ enospc
    ∷ enotdir ∷ enotempty ∷ eperm ∷ erofs ∷ exdev ∷ []

abbrev pub errno_rmdir : List ℕ
errno_rmdir =
    eacces ∷ ebusy ∷ efault ∷ eio ∷ eloop ∷ enametoolong ∷ enoent ∷ enotdir ∷ enotempty ∷ eperm
    ∷ erofs ∷ []

abbrev pub errno_symlink : List ℕ
errno_symlink =
    eacces ∷ edquot ∷ eexist ∷ efault ∷ eio ∷ eloop ∷ enametoolong ∷ enoent ∷ enospc ∷ enotdir
    ∷ erofs ∷ []
