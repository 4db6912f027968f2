-- ===== src/Ops/Attributes.antt =====
-- wowFS/unreliablefs/unreliablefs_ops.c: attributes and directory listings.
use wow_so_distributed.Base.{
  ℕ, zero, suc, ◌*◌, ◌^◌, ℤ, pos, neg, is_minus_one, is_negative, [], ◌∷◌, Bytes, length, take,
  drop, is_zero, if◌then◌else◌,
}
use wow_so_distributed.Host.{Call, Stat, Env}
use wow_so_distributed.Exec.{pure, ◌>>=◌, ◌>>◌}
use wow_so_distributed.Machine.{M, call}
use wow_so_distributed.LocalReorder.{FuseFileInfo, c_string}
use wow_so_distributed.Client
use wow_so_distributed.Manager.{
  StatSelect, no_stat, remote, StatInfo, zero_stat, remove_mount_prefix, should_fetch,
}
use wow_so_distributed.Inject.FuseOps.{op_lstat, op_getattr, op_getxattr, op_readdir}
use wow_so_distributed.Ops.Prologue.{guarded}

-- What getattr makes of shouldFetch's answer.
abbrev pub attributes_of : StatSelect → StatInfo → ℤ × Stat
attributes_of no_stat info = (neg info.error_code, zero_stat)
attributes_of _ info = (pos 0, info.stat_data)

module _ (env : Env) where
  unfoldable pub unreliable_lstat : Bytes → Stat → M (ℤ × Stat)
  unfolding guarded call
  unreliable_lstat path buf =
      guarded env path op_lstat (λ ret. (ret, buf))
        (do
          r ← call env (Call.lstat path)
          pure (if is_minus_one r.ret then (neg (pos r.errno), zero_stat) else (pos 0, r.stat)))

  unfoldable pub unreliable_getattr : Bytes → Stat → M (ℤ × Stat)
  unfolding guarded should_fetch
  unreliable_getattr path buf =
      guarded env path op_getattr (λ ret. (ret, buf))
        (do info ← should_fetch env path; pure (attributes_of info.source info))

  unfoldable pub fetch_xattr : StatSelect → Bytes → Bytes → Bytes → ℕ → M (ℤ × Bytes)
  unfolding call Client.get_xattr
  fetch_xattr remote path name value size = do
    (response, text) ← Client.get_xattr env (remove_mount_prefix path) name value size
    pure (if is_minus_one response.ret then neg response.server_errno else pos 0, text)
  fetch_xattr _ path name value size = do
    r ← call env (Call.getxattr path name size)
    pure (if is_negative r.ret then (neg (pos r.errno), value) else (pos 0, r.bytes))

  -- The result and the value. The local branch returns 0 and not the length.
  unfoldable pub unreliable_getxattr : Bytes → Bytes → Bytes → ℕ → M (ℤ × Bytes)
  unfolding guarded should_fetch fetch_xattr
  unreliable_getxattr path name value size =
      guarded env path op_getxattr (λ ret. (ret, value))
        (do info ← should_fetch env path; fetch_xattr info.source path name value size)

  unfoldable pub unreliable_opendir : Bytes → FuseFileInfo → M ℤ
  unreliable_opendir path fi = pure (pos 0)

  unfoldable pub unreliable_releasedir : Bytes → FuseFileInfo → M ℤ
  unreliable_releasedir path fi = pure (pos 0)

  -- The loop of readdir over the buffer, in steps of sizeof(struct dirent): `fuel` is the number of
  -- bytes left, one round takes at least one. st_mode is d_type << 12. A filler that answers other
  -- than 0 ends it.
  unfoldable pub fill_entries : ℕ → Bytes → M (Unit {0})
  unfolding call
  fill_entries zero dir_buf = pure tt
  fill_entries (suc fuel) [] = pure tt
  fill_entries (suc fuel) (b ∷ s) = do
    let rest = fill_entries fuel (drop env.sizeof_dirent (b ∷ s))
    let de = take env.sizeof_dirent (b ∷ s)
    r ← call env (Call.filler (c_string (env.d_name de)) (env.d_ino de) (env.d_type de * 2 ^ 12))
    if is_zero r.ret then rest else pure tt

  unfoldable pub unreliable_readdir : Bytes → M ℤ
  unfolding guarded call Client.download_dir fill_entries
  unreliable_readdir path =
      guarded env path op_readdir (λ ret. ret)
        (do
          (response, dir_buf) ← Client.download_dir env (remove_mount_prefix path)
          if is_negative response.ret
              then (do last ← call env Call.read_errno; pure (neg (pos last.errno)))
              else (do fill_entries (length dir_buf) dir_buf; pure (pos 0)))
