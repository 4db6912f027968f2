-- ===== src/Inject/FuseOps.antt =====
-- enum fuse_op of wowFS/unreliablefs/unreliablefs_ops.h and its names, in the build for Linux: with
-- HAVE_XATTR, HAVE_FLOCK, HAVE_FALLOCATE and HAVE_UTIMENSAT.
use wow_so_distributed.Base.{Bytes, codes}

pub data FuseOp : Type 0 where
  op_getattr op_readlink op_mknod op_mkdir op_unlink op_rmdir : FuseOp
  op_symlink op_rename op_link op_chmod op_chown op_truncate : FuseOp
  op_open op_read op_write op_statfs op_flush op_release : FuseOp
  op_fsync op_setxattr op_getxattr op_listxattr op_removexattr op_opendir : FuseOp
  op_readdir op_releasedir op_fsyncdir op_access op_creat op_ftruncate : FuseOp
  op_fgetattr op_lock op_ioctl op_flock op_fallocate op_utimens : FuseOp
  op_lstat : FuseOp

-- The array fuse_op_name of unreliablefs_ops.c, indexed by the operation.
unfoldable pub fuse_op_name : FuseOp → Bytes
fuse_op_name op_getattr = codes "getattr"
fuse_op_name op_readlink = codes "readlink"
fuse_op_name op_mknod = codes "mknod"
fuse_op_name op_mkdir = codes "mkdir"
fuse_op_name op_unlink = codes "unlink"
fuse_op_name op_rmdir = codes "rmdir"
fuse_op_name op_symlink = codes "symlink"
fuse_op_name op_rename = codes "rename"
fuse_op_name op_link = codes "link"
fuse_op_name op_chmod = codes "chmod"
fuse_op_name op_chown = codes "chown"
fuse_op_name op_truncate = codes "truncate"
fuse_op_name op_open = codes "open"
fuse_op_name op_read = codes "read"
fuse_op_name op_write = codes "write"
fuse_op_name op_statfs = codes "statfs"
fuse_op_name op_flush = codes "flush"
fuse_op_name op_release = codes "release"
fuse_op_name op_fsync = codes "fsync"
fuse_op_name op_setxattr = codes "setxattr"
fuse_op_name op_getxattr = codes "getxattr"
fuse_op_name op_listxattr = codes "listxattr"
fuse_op_name op_removexattr = codes "removexattr"
fuse_op_name op_opendir = codes "opendir"
fuse_op_name op_readdir = codes "readdir"
fuse_op_name op_releasedir = codes "releasedir"
fuse_op_name op_fsyncdir = codes "fsyncdir"
fuse_op_name op_access = codes "access"
fuse_op_name op_creat = codes "creat"
fuse_op_name op_ftruncate = codes "ftruncate"
fuse_op_name op_fgetattr = codes "fgetattr"
fuse_op_name op_lock = codes "lock"
fuse_op_name op_ioctl = codes "ioctl"
fuse_op_name op_flock = codes "flock"
fuse_op_name op_fallocate = codes "fallocate"
fuse_op_name op_utimens = codes "utimens"
fuse_op_name op_lstat = codes "lstat"
