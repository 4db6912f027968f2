-- ===== src/Inject/Freebsd.antt =====
-- op_random_errno of wowFS/unreliablefs/unreliablefs_errinj.c in a build for FreeBSD.
mod Errno
pub mod TablesA
mod TablesB
use wow_so_distributed.Base.{ℕ, List, Option, some, none, Bool}
use wow_so_distributed.Inject.FuseOps.{
  FuseOp, op_getattr, op_readlink, op_mknod, op_mkdir, op_unlink, op_rmdir, op_symlink, op_rename,
  op_link, op_chmod, op_chown, op_truncate, op_open, op_read, op_write, op_statfs, op_flush,
  op_release, op_fsync, op_opendir, op_readdir, op_releasedir, op_fsyncdir, op_access, op_creat,
  op_ftruncate, op_fgetattr, op_lock, op_ioctl, op_utimens, op_lstat,
}
use wow_so_distributed.Inject.Freebsd.TablesA.{
  errno_access, errno_chmod, errno_creat, errno_ftruncate, errno_link, errno_mkdir, errno_mknod,
  errno_opendir, errno_read, errno_readdir, errno_readlink, errno_rename,
}
use wow_so_distributed.Inject.Freebsd.TablesB.{
  errno_close, errno_fcntl, errno_fsync, errno_ioctl, errno_lstat, errno_rmdir, errno_statfs,
  errno_symlink, errno_truncate, errno_unlink, errno_utimensat, errno_write,
}

-- The table that an operation draws from. `none`: the system has no setxattr and no
-- fallocate, and the build looks for fallocate to find flock, so the switch has no case.
abbrev pub table : Bool → FuseOp → Option (List ℕ)
table since_12 op_getattr = some (errno_lstat since_12)
table since_12 op_readlink = some (errno_readlink since_12)
table since_12 op_mknod = some (errno_mknod since_12)
table since_12 op_mkdir = some (errno_mkdir since_12)
table since_12 op_unlink = some (errno_unlink since_12)
table since_12 op_rmdir = some (errno_rmdir since_12)
table since_12 op_symlink = some (errno_symlink since_12)
table since_12 op_rename = some (errno_rename since_12)
table since_12 op_link = some (errno_link since_12)
table since_12 op_chmod = some (errno_chmod since_12)
table since_12 op_chown = some (errno_chmod since_12)
table since_12 op_truncate = some (errno_truncate since_12)
table since_12 op_open = some (errno_creat since_12)
table since_12 op_read = some (errno_read since_12)
table since_12 op_write = some (errno_write since_12)
table since_12 op_statfs = some (errno_statfs since_12)
table since_12 op_flush = some errno_close
table since_12 op_release = some errno_close
table since_12 op_fsync = some (errno_fsync since_12)
table since_12 op_opendir = some errno_opendir
table since_12 op_readdir = some (errno_readdir since_12)
table since_12 op_releasedir = some errno_close
table since_12 op_fsyncdir = some (errno_fsync since_12)
table since_12 op_access = some (errno_access since_12)
table since_12 op_creat = some (errno_creat since_12)
table since_12 op_ftruncate = some (errno_ftruncate since_12)
table since_12 op_fgetattr = some (errno_lstat since_12)
table since_12 op_lock = some errno_fcntl
table since_12 op_ioctl = some errno_ioctl
table since_12 op_utimens = some (errno_utimensat since_12)
table since_12 op_lstat = some (errno_lstat since_12)
table _ _ = none
