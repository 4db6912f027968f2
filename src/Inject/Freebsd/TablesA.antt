-- ===== src/Inject/Freebsd/TablesA.antt =====
-- wowFS/unreliablefs/unreliablefs_errno_freebsd.h: the tables from errno_access on.
use wow_so_distributed.Base.{ℕ, List, [], ◌∷◌, Bool, if◌then◌else◌}
use wow_so_distributed.Inject.BsdErrno.{
  eacces, eagain, ebadf, ebusy, econnreset, edquot, eexist, efault, efbig, eintr, einval, eio,
  eisdir, eloop, emfile, emlink, enametoolong, enfile, enoent, enospc, enotdir, enotempty, enxio,
  eperm, erofs, etxtbsy, ewouldblock, exdev,
}
use wow_so_distributed.Inject.Freebsd.Errno.{
  ecapmode, eftype, eintegrity, enotcapable, eopnotsupp, eoverflow,
}

-- EINTEGRITY where __FreeBSD__ >= 12.
abbrev with_integrity : Bool → List ℕ → List ℕ
with_integrity since_12 rest = if since_12 then eintegrity ∷ rest else rest

abbrev pub errno_access : Bool → List ℕ
errno_access since_12 =
    eacces
    ∷ efault
    ∷ with_integrity since_12
        (einval ∷ eio ∷ eloop ∷ enametoolong ∷ enoent ∷ enotdir ∷ erofs ∷ etxtbsy ∷ [])

abbrev pub errno_chmod : Bool → List ℕ
errno_chmod since_12 =
    eacces
    ∷ efault
    ∷ eftype
    ∷ with_integrity since_12
        (eio ∷ eloop ∷ enametoolong ∷ enoent ∷ enotdir ∷ eperm ∷ eperm ∷ erofs ∷ [])

abbrev pub errno_creat : Bool → List ℕ
errno_creat since_12 =
    eacces
    ∷ ebadf
    ∷ ecapmode
    ∷ edquot
    ∷ eexist
    ∷ efault
    ∷ with_integrity since_12 (
        eintr ∷ einval ∷ eio ∷ eisdir ∷ eloop ∷ emfile ∷ emlink ∷ enametoolong ∷ enfile ∷ enoent
        ∷ enospc ∷ enotcapable ∷ enotdir ∷ enxio ∷ eopnotsupp ∷ eperm ∷ erofs ∷ etxtbsy
        ∷ ewouldblock ∷ [])

abbrev pub errno_ftruncate : Bool → List ℕ
errno_ftruncate since_12 =
    eacces
    ∷ ebadf
    ∷ efault
    ∷ efbig
    ∷ with_integrity since_12 (
        einval ∷ eio ∷ eisdir ∷ eloop ∷ enametoolong ∷ enoent ∷ enotdir ∷ eperm ∷ erofs ∷ etxtbsy
        ∷ [])

abbrev pub errno_link : Bool → List ℕ
errno_link since_12 =
    eacces
    ∷ ebadf
    ∷ edquot
    ∷ eexist
    ∷ efault
    ∷ with_integrity since_12 (
        einval ∷ eio ∷ eloop ∷ emlink ∷ enametoolong ∷ enoent ∷ enospc ∷ enotdir ∷ eopnotsupp
        ∷ eperm ∷ erofs ∷ exdev ∷ [])

abbrev pub errno_mkdir : Bool → List ℕ
errno_mkdir since_12 =
    eacces
    ∷ ebadf
    ∷ edquot
    ∷ eexist
    ∷ efault
    ∷ with_integrity since_12
        (eio ∷ eloop ∷ emlink ∷ enametoolong ∷ enoent ∷ enospc ∷ enotdir ∷ eperm ∷ erofs ∷ [])

abbrev pub errno_mknod : Bool → List ℕ
errno_mknod since_12 =
    eacces
    ∷ ebadf
    ∷ edquot
    ∷ eexist
    ∷ efault
    ∷ with_integrity since_12
        (einval ∷ eio ∷ eloop ∷ enametoolong ∷ enoent ∷ enospc ∷ enotdir ∷ eperm ∷ erofs ∷ [])

abbrev pub errno_opendir : List ℕ
errno_opendir = eacces ∷ eloop ∷ enametoolong ∷ enoent ∷ enotdir ∷ []

abbrev pub errno_readdir : Bool → List ℕ
errno_readdir since_12 = ebadf ∷ efault ∷ with_integrity since_12 (einval ∷ eio ∷ [])

abbrev pub errno_read : Bool → List ℕ
errno_read since_12 =
    eagain
    ∷ ebadf
    ∷ ebusy
    ∷ econnreset
    ∷ efault
    ∷ with_integrity since_12 (eintr ∷ einval ∷ eio ∷ eisdir ∷ eopnotsupp ∷ eoverflow ∷ [])

abbrev pub errno_readlink : Bool → List ℕ
errno_readlink since_12 =
    eacces
    ∷ efault
    ∷ with_integrity since_12 (einval ∷ eio ∷ eloop ∷ enametoolong ∷ enoent ∷ enotdir ∷ [])

abbrev pub errno_rename : Bool → List ℕ
errno_rename since_12 =
    eacces
    ∷ ecapmode
    ∷ edquot
    ∷ efault
    ∷ with_integrity since_12 (
        einval ∷ eio ∷ eisdir ∷ eloop ∷ enametoolong ∷ enoent ∷ enospc ∷ enotdir ∷ enotempty ∷ eperm
        ∷ erofs ∷ exdev ∷ [])
