-- ===== src/Inject/ErrnoTable.antt =====
-- op_random_errno of wowFS/unreliablefs/unreliablefs_errinj.c: which errors an operation can draw.
use wow_so_distributed.Base.{ℕ, List}
use wow_so_distributed.Inject.FuseOps.{
  FuseOp, op_getattr, op_readlink, op_mknod, op_mkdir, op_unlink, op_rmdir, op_symlink, op_rename,
  op_link, op_chmod, op_chown, op_truncate, op_open, op_read, op_write, op_statfs, op_flush,
  op_release, op_fsync, op_setxattr, op_getxattr, op_listxattr, op_removexattr, op_opendir,
  op_readdir, op_releasedir, op_fsyncdir, op_access, op_creat, op_ftruncate, op_fgetattr, op_lock,
  op_ioctl, op_flock, op_fallocate, op_utimens, op_lstat,
}
use wow_so_distributed.Inject.TablesA.{
  errno_access, errno_chmod, errno_creat, errno_ftruncate, errno_link, errno_mkdir, errno_mknod,
  errno_opendir, errno_read, errno_readdir, errno_readlink, errno_rename, errno_rmdir,
  errno_symlink,
}
use wow_so_distributed.Inject.TablesB.{
  errno_close, errno_fallocate, errno_fcntl, errno_flock, errno_fsync, errno_getxattr, errno_ioctl,
  errno_listxattr, errno_lstat, errno_removexattr, errno_setxattr, errno_statfs, errno_truncate,
  errno_unlink, errno_utimensat, errno_write,
}

-- The switch of op_random_errno: the table that an operation draws from. Every operation of this
-- build has a case.
unfoldable pub errno_table : FuseOp → List ℕ
errno_table op_getattr = errno_lstat
errno_table op_readlink = errno_readlink
errno_table op_mknod = errno_mknod
errno_table op_mkdir = errno_mkdir
errno_table op_unlink = errno_unlink
errno_table op_rmdir = errno_rmdir
errno_table op_symlink = errno_symlink
errno_table op_rename = errno_rename
errno_table op_link = errno_link
errno_table op_chmod = errno_chmod
errno_table op_chown = errno_chmod
errno_table op_truncate = errno_truncate
errno_table op_open = errno_creat
errno_table op_read = errno_read
errno_table op_write = errno_write
errno_table op_statfs = errno_statfs
errno_table op_flush = errno_close
errno_table op_release = errno_close
errno_table op_fsync = errno_fsync
errno_table op_setxattr = errno_setxattr
errno_table op_getxattr = errno_getxattr
errno_table op_listxattr = errno_listxattr
errno_table op_removexattr = errno_removexattr
errno_table op_opendir = errno_opendir
errno_table op_readdir = errno_readdir
errno_table op_releasedir = errno_close
errno_table op_fsyncdir = errno_fsync
errno_table op_access = errno_access
errno_table op_creat = errno_creat
errno_table op_ftruncate = errno_ftruncate
errno_table op_fgetattr = errno_lstat
errno_table op_lock = errno_fcntl
errno_table op_ioctl = errno_ioctl
errno_table op_flock = errno_flock
errno_table op_fallocate = errno_fallocate
errno_table op_utimens = errno_utimensat
errno_table op_lstat = errno_lstat
