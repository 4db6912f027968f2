-- ===== src/Inject/Freebsd/TablesB.antt =====
-- wowFS/unreliablefs/unreliablefs_errno_freebsd.h: the tables from errno_rmdir on.
use wow_so_distributed.Base.{ℕ, List, [], ◌∷◌, Bool, if◌then◌else◌}
use wow_so_distributed.Inject.BsdErrno.{
  eacces, eagain, ebadf, ebusy, econnreset, edeadlk, edquot, eexist, efault, efbig, eintr, einval,
  eio, eisdir, eloop, emfile, enametoolong, enoent, enolck, enospc, enotdir, enotempty, enotty,
  eperm, epipe, erofs, esrch, etxtbsy, ewouldblock,
}
use wow_so_distributed.Inject.Freebsd.Errno.{eintegrity, eopnotsupp, eoverflow}

-- EINTEGRITY where __FreeBSD__ >= 12.
abbrev with_integrity : Bool → List ℕ → List ℕ
with_integrity since_12 rest = if since_12 then eintegrity ∷ rest else rest

abbrev pub errno_rmdir : Bool → List ℕ
errno_rmdir since_12 =
    eacces
    ∷ ebusy
    ∷ efault
    ∷ with_integrity since_12
        (einval ∷ eio ∷ eloop ∷ enametoolong ∷ enoent ∷ enotdir ∷ enotempty ∷ eperm ∷ erofs ∷ [])

abbrev pub errno_symlink : Bool → List ℕ
errno_symlink since_12 =
    eacces
    ∷ edquot
    ∷ eexist
    ∷ efault
    ∷ with_integrity since_12
        (eio ∷ eloop ∷ enametoolong ∷ enoent ∷ enospc ∷ enotdir ∷ eperm ∷ erofs ∷ [])

abbrev pub errno_truncate : Bool → List ℕ
errno_truncate since_12 =
    eacces
    ∷ efault
    ∷ efbig
    ∷ with_integrity since_12 (
        einval ∷ eio ∷ eisdir ∷ eloop ∷ enametoolong ∷ enoent ∷ enotdir ∷ eperm ∷ erofs ∷ etxtbsy
        ∷ [])

abbrev pub errno_unlink : Bool → List ℕ
errno_unlink since_12 =
    eacces
    ∷ efault
    ∷ with_integrity since_12
        (eio ∷ eisdir ∷ eloop ∷ enametoolong ∷ enoent ∷ enospc ∷ enotdir ∷ eperm ∷ erofs ∷ [])

abbrev pub errno_write : Bool → List ℕ
errno_write since_12 =
    eagain
    ∷ ebadf
    ∷ edquot
    ∷ efault
    ∷ efbig
    ∷ with_integrity since_12 (eintr ∷ einval ∷ eio ∷ enospc ∷ epipe ∷ erofs ∷ [])

abbrev pub errno_lstat : Bool → List ℕ
errno_lstat since_12 =
    eacces
    ∷ efault
    ∷ with_integrity since_12 (eio ∷ eloop ∷ enametoolong ∷ enoent ∷ enotdir ∷ eoverflow ∷ [])

abbrev pub errno_statfs : Bool → List ℕ
errno_statfs since_12 =
    eacces ∷ efault ∷ with_integrity since_12 (eio ∷ eloop ∷ enametoolong ∷ enoent ∷ enotdir ∷ [])

abbrev pub errno_close : List ℕ
errno_close = ebadf ∷ eintr ∷ enospc ∷ econnreset ∷ []

abbrev pub errno_utimensat : Bool → List ℕ
errno_utimensat since_12 =
    eacces
    ∷ ebadf
    ∷ efault
    ∷ with_integrity since_12
        (einval ∷ eio ∷ eloop ∷ enametoolong ∷ enoent ∷ enotdir ∷ eperm ∷ erofs ∷ esrch ∷ [])

abbrev pub errno_fsync : Bool → List ℕ
errno_fsync since_12 = ebadf ∷ with_integrity since_12 (einval ∷ eio ∷ [])

abbrev pub errno_flock : List ℕ
errno_flock = ebadf ∷ einval ∷ enolck ∷ eopnotsupp ∷ ewouldblock ∷ []

abbrev pub errno_ioctl : List ℕ
errno_ioctl = ebadf ∷ efault ∷ einval ∷ enotty ∷ []

abbrev pub errno_fcntl : List ℕ
errno_fcntl =
    eagain ∷ ebadf ∷ edeadlk ∷ eintr ∷ einval ∷ emfile ∷ enolck ∷ enotty ∷ eopnotsupp ∷ eoverflow
    ∷ eperm ∷ esrch ∷ []
