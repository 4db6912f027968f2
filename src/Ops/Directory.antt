-- ===== src/Ops/Directory.antt =====
-- wowFS/unreliablefs/unreliablefs_ops.c: the handlers that change names, on the server first.
use wow_so_distributed.Base.{ℤ, pos, negsuc, neg, is_minus_one, Bytes, if◌then◌else◌}
use wow_so_distributed.Host.{Call, Env}
use wow_so_distributed.Exec.{pure, ◌>>=◌, ◌>>◌}
use wow_so_distributed.Machine.{M, call}
use wow_so_distributed.Client
use wow_so_distributed.Client.{RpcResponse}
use wow_so_distributed.Manager.{remove_mount_prefix}
use wow_so_distributed.Cache.Files
use wow_so_distributed.Inject.FuseOps.{
  op_mkdir, op_unlink, op_rmdir, op_symlink, op_rename, op_link, op_access,
}
use wow_so_distributed.Ops.Prologue.{guarded, zero_or_errno, zero_or_errno_neg}

-- `return -response.server_errno_` where the server failed, else the local part.
abbrev pub after_server : RpcResponse → M ℤ → M ℤ
after_server response local =
    if is_minus_one response.ret then pure (neg response.server_errno) else local

module _ (env : Env) where
  unfoldable pub unreliable_mkdir : Bytes → ℤ → M ℤ
  unfolding guarded call Client.mkdir
  unreliable_mkdir path mode =
      guarded env path op_mkdir (λ ret. ret)
        (do
          response ← Client.mkdir env (remove_mount_prefix path) mode
          after_server response (do r ← call env (Call.mkdir path mode); pure (zero_or_errno r)))

  unfoldable pub unreliable_unlink : Bytes → M ℤ
  unfolding guarded call Client.unlink Files.delete_from_cache
  unreliable_unlink path =
      guarded env path op_unlink (λ ret. ret)
        (do
          response ← Client.unlink env (remove_mount_prefix path)
          after_server response (do Files.delete_from_cache env path; pure (pos 0)))

  -- A local failure gives -1, not -errno.
  unfoldable pub unreliable_rmdir : Bytes → M ℤ
  unfolding guarded call Client.rmdir
  unreliable_rmdir path =
      guarded env path op_rmdir (λ ret. ret)
        (do
          response ← Client.rmdir env (remove_mount_prefix path)
          after_server response (do
            r ← call env (Call.rmdir path)
            pure (if is_minus_one r.ret then negsuc 0 else pos 0)))

  -- A failure of the server is only logged.
  unfoldable pub unreliable_symlink : Bytes → Bytes → M ℤ
  unfolding guarded call Client.symlink
  unreliable_symlink target linkpath =
      guarded env target op_symlink (λ ret. ret)
        (do
          Client.symlink env (remove_mount_prefix target) (remove_mount_prefix linkpath)
          r ← call env (Call.symlink target linkpath)
          pure (zero_or_errno r))

  unfoldable pub unreliable_rename : Bytes → Bytes → M ℤ
  unfolding guarded call Client.rename Files.rename
  unreliable_rename oldpath newpath =
      guarded env oldpath op_rename (λ ret. ret)
        (do
          response ← Client.rename env (remove_mount_prefix oldpath) (remove_mount_prefix newpath)
          after_server response (do Files.rename env oldpath newpath; pure (pos 0)))

  unfoldable pub unreliable_link : Bytes → Bytes → M ℤ
  unfolding guarded call Client.link
  unreliable_link oldpath newpath =
      guarded env oldpath op_link (λ ret. ret)
        (do
          response ← Client.link env (remove_mount_prefix oldpath) (remove_mount_prefix newpath)
          after_server response
              (do r ← call env (Call.link oldpath newpath); pure (zero_or_errno_neg r)))

  unfoldable pub unreliable_access : Bytes → ℤ → M ℤ
  unfolding guarded Client.access
  unreliable_access path mode =
      guarded env path op_access (λ ret. ret)
        (do
          response ← Client.access env (remove_mount_prefix path) mode
          after_server response (pure (pos 0)))
