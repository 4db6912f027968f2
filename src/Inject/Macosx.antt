-- ===== src/Inject/Macosx.antt =====
-- op_random_errno of wowFS/unreliablefs/unreliablefs_errinj.c in a build for macOS.
mod Errno
mod TablesA
mod TablesB
use wow_so_distributed.Base.{ℕ, List, Option, some, none}
use wow_so_distributed.Inject.FuseOps.{
  FuseOp, op_getattr, op_readlink, op_mknod, op_mkdir, op_unlink, op_rmdir, op_symlink, op_rename,
  op_link, op_chmod, op_chown, op_truncate, op_open, op_read, op_write, op_statfs, op_flush,
  op_release, op_fsync, op_setxattr, op_getxattr, op_listxattr, op_removexattr, op_opendir,
  op_readdir, op_releasedir, op_fsyncdir, op_access, op_creat, op_ftruncate, op_fgetattr, op_lock,
  op_ioctl, op_utimens, op_lstat,
}
use wow_so_distributed.Inject.Macosx.TablesA.{
  errno_access, errno_chmod, errno_creat, errno_ftruncate, errno_link, errno_mkdir, errno_mknod,
  errno_opendir, errno_read, errno_readdir, errno_readlink, errno_rename, errno_rmdir,
  errno_symlink,
}
use wow_so_distributed.Inject.Macosx.TablesB.{
  errno_close, errno_fcntl, errno_fsync, errno_getxattr, errno_ioctl, errno_listxattr, errno_lstat,
  errno_removexattr, errno_setxattr, errno_statfs, errno_truncate, errno_unlink, errno_utimensat,
  errno_write,
}

-- The table that an operation draws from. `none`: the system has no fallocate,
-- which the build also looks for to find flock, so the switch has no case.
abbrev pub table : FuseOp → Option (List ℕ)
table op_getattr = some errno_lstat
table op_readlink = some errno_readlink
table op_mknod = some errno_mknod
table op_mkdir = some errno_mkdir
table op_unlink = some errno_unlink
table op_rmdir = some errno_rmdir
table op_symlink = some errno_symlink
table op_rename = some errno_rename
table op_link = some errno_link
table op_chmod = some errno_chmod
table op_chown = some errno_chmod
table op_truncate = some errno_truncate
table op_open = some errno_creat
table op_read = some errno_read
table op_write = some errno_write
table op_statfs = some errno_statfs
table op_flush = some errno_close
table op_release = some errno_close
table op_fsync = some errno_fsync
table op_setxattr = some errno_setxattr
table op_getxattr = some errno_getxattr
table op_listxattr = some errno_listxattr
table op_removexattr = some errno_removexattr
table op_opendir = some errno_opendir
table op_readdir = some errno_readdir
table op_releasedir = some errno_close
table op_fsyncdir = some errno_fsync
table op_access = some errno_access
table op_creat = some errno_creat
table op_ftruncate = some errno_ftruncate
table op_fgetattr = some errno_lstat
table op_lock = some errno_fcntl
table op_ioctl = some errno_ioctl
table op_utimens = some errno_utimensat
table op_lstat = some errno_lstat
table _ = none
