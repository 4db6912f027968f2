-- ===== src/Ops/Local.antt =====
-- wowFS/unreliablefs/unreliablefs_ops.c: the handlers that work on the local file alone.
use wow_so_distributed.Base.{
  ℕ, ℤ, pos, neg, is_minus_one, is_zero, int32, not, Bool, Option, none, some, [], ◌==◌, Bytes,
  if◌then◌else◌,
}
use wow_so_distributed.Host.{Call, Stat, Env}
use wow_so_distributed.Exec.{pure, terminate, ◌>>=◌, ◌>>◌}
use wow_so_distributed.Machine.{M, call}
use wow_so_distributed.LocalReorder.{FuseFileInfo}
use wow_so_distributed.Inject.FuseOps.{
  op_readlink, op_mknod, op_chmod, op_chown, op_truncate, op_statfs, op_fsync, op_fsyncdir,
  op_ftruncate, op_fgetattr, op_lock, op_ioctl, op_flock, op_fallocate, op_utimens, op_setxattr,
  op_listxattr, op_removexattr,
}
use wow_so_distributed.Ops.Prologue.{guarded, one_call, zero_or_errno_neg, fd_of, mark_dirty}

module _ (env : Env) where
  -- The result and the link text: `buf[ret] = 0` ends it.
  unfoldable pub unreliable_readlink : Bytes → ℕ → M (ℤ × Bytes)
  unfolding guarded call
  unreliable_readlink path bufsiz =
      guarded env path op_readlink (λ ret. (ret, []))
        (do
          r ← call env (Call.readlink path bufsiz)
          pure (if is_minus_one r.ret then (neg (pos r.errno), []) else (pos 0, r.bytes)))

  unfoldable pub unreliable_mknod : Bytes → ℤ → ℤ → M ℤ
  unfolding one_call
  unreliable_mknod path mode dev = one_call env path op_mknod (Call.mknod path mode dev)

  unfoldable pub unreliable_chmod : Bytes → ℤ → M ℤ
  unfolding guarded call
  unreliable_chmod path mode =
      guarded env path op_chmod (λ ret. ret)
        (do r ← call env (Call.chmod path mode); pure (zero_or_errno_neg r))

  unfoldable pub unreliable_chown : Bytes → ℤ → ℤ → M ℤ
  unfolding one_call
  unreliable_chown path owner group = one_call env path op_chown (Call.chown path owner group)

  unfoldable pub unreliable_truncate : Bytes → ℤ → M ℤ
  unfolding one_call
  unreliable_truncate path length = one_call env path op_truncate (Call.truncate path length)

  unfoldable pub unreliable_statfs : Bytes → M ℤ
  unfolding one_call
  unreliable_statfs path = one_call env path op_statfs (Call.statvfs path)

  unfoldable pub unreliable_fsync : Bytes → Bool → FuseFileInfo → M ℤ
  unfolding one_call
  unreliable_fsync path datasync fi =
      one_call env path op_fsync
        (if datasync then Call.fdatasync (fd_of fi.fh) else Call.fsync (fd_of fi.fh))

  unfoldable pub unreliable_setxattr : Bytes → Bytes → Bytes → ℕ → ℤ → M ℤ
  unfolding one_call
  unreliable_setxattr path name value size flags =
      one_call env path op_setxattr (Call.setxattr path name value size flags)

  unfoldable pub unreliable_listxattr : Bytes → ℕ → M (ℤ × Bytes)
  unfolding guarded call
  unreliable_listxattr path size =
      guarded env path op_listxattr (λ ret. (ret, []))
        (do
          r ← call env (Call.listxattr path size)
          pure (if is_minus_one r.ret then (neg (pos r.errno), []) else (int32 r.ret, r.bytes)))

  unfoldable pub unreliable_removexattr : Bytes → Bytes → M ℤ
  unfolding one_call
  unreliable_removexattr path name = one_call env path op_removexattr (Call.removexattr path name)

  -- The directory stream stays open where the flush fails.
  unfoldable pub unreliable_fsyncdir : Bytes → Bool → M ℤ
  unfolding guarded call
  unreliable_fsyncdir path datasync =
      guarded env path op_fsyncdir (λ ret. ret)
        (do
          dir ← call env (Call.opendir path)
          if not dir.ok then pure (neg (pos dir.errno)) else (do
            r ← call env (if datasync then Call.fdatasync dir.ret else Call.fsync dir.ret)
            if is_minus_one r.ret
                then pure (neg (pos r.errno))
                else (do call env (Call.closedir dir.ret); pure (pos 0))))

  -- The file is truncated by its path; an open descriptor is marked dirty.
  unfoldable pub unreliable_ftruncate : Bytes → ℤ → FuseFileInfo → M ℤ
  unfolding guarded call mark_dirty
  unreliable_ftruncate path length fi =
      guarded env path op_ftruncate (λ ret. ret)
        (do
          r ← call env (Call.truncate path length)
          if is_minus_one r.ret
              then pure (neg (pos r.errno))
              else (do if fi.fh == 0 then pure tt else mark_dirty (fd_of fi.fh); pure (pos 0)))

  unfoldable pub unreliable_fgetattr : Bytes → Stat → FuseFileInfo → M (ℤ × Stat)
  unfolding guarded call
  unreliable_fgetattr path buf fi =
      guarded env path op_fgetattr (λ ret. (ret, buf))
        (do
          r ← call env (Call.fstat (fd_of fi.fh))
          pure (if is_minus_one r.ret then (neg (pos r.errno), buf) else (pos 0, r.stat)))

  unfoldable pub unreliable_lock : Bytes → FuseFileInfo → ℤ → M ℤ
  unfolding one_call
  unreliable_lock path fi cmd = one_call env path op_lock (Call.fcntl (fd_of fi.fh) cmd)

  unfoldable pub unreliable_ioctl : Bytes → ℤ → FuseFileInfo → M ℤ
  unfolding guarded call
  unreliable_ioctl path cmd fi =
      guarded env path op_ioctl (λ ret. ret)
        (do
          r ← call env (Call.ioctl (fd_of fi.fh) cmd)
          pure (if is_minus_one r.ret then neg (pos r.errno) else r.ret))

  unfoldable pub unreliable_flock : Bytes → FuseFileInfo → ℤ → M ℤ
  unfolding one_call
  unreliable_flock path fi op = one_call env path op_flock (Call.flock (fd_of fi.fh) op)

  unfoldable pub unreliable_utimens : Bytes → M ℤ
  unfolding one_call
  unreliable_utimens path = one_call env path op_utimens (Call.utimensat path)

  -- fallocate( fi->fh, … ) reads `fi` also where it is null: that ends the process.
  unfoldable pub allocate : Option FuseFileInfo → ℤ → ℤ → ℤ → M ℤ
  unfolding call mark_dirty
  allocate none mode offset len = terminate
  allocate (some fi) mode offset len = do
    r ← call env (Call.fallocate (fd_of fi.fh) mode offset len)
    if is_minus_one r.ret
        then pure (neg (pos r.errno))
        else (do mark_dirty (fd_of fi.fh); pure (pos 0))

  -- The descriptor is opened where `fi` is null. O_WRONLY is 1.
  unfoldable pub open_or_allocate : Bytes → ℤ → ℤ → ℤ → Option FuseFileInfo → M ℤ
  unfolding call allocate
  open_or_allocate path mode offset len none = do
    opened ← call env (Call.open_file path (pos 1) none)
    if is_minus_one opened.ret then pure (neg (pos opened.errno)) else allocate none mode offset len
  open_or_allocate path mode offset len (some fi) =
      if is_minus_one (fd_of fi.fh)
      then (do last ← call env Call.read_errno; pure (neg (pos last.errno)))
      else allocate (some fi) mode offset len

  -- EOPNOTSUPP is 95.
  unfoldable pub unreliable_fallocate : Bytes → ℤ → ℤ → ℤ → Option FuseFileInfo → M ℤ
  unfolding guarded open_or_allocate
  unreliable_fallocate path mode offset len fi =
      guarded env path op_fallocate (λ ret. ret)
        (if not (is_zero mode)
          then pure (neg (pos 95))
          else open_or_allocate path mode offset len fi)
