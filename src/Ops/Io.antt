-- ===== src/Ops/Io.antt =====
-- wowFS/unreliablefs/unreliablefs_ops.c: read and write.
use wow_so_distributed.Base.{
  ℕ, ℤ, pos, neg, is_minus_one, is_zero, int32, eq_ℤ, not, ◌||◌, Option, none, some, [], Bytes,
  if◌then◌else◌,
}
use wow_so_distributed.Host.{Call, Env}
use wow_so_distributed.Exec.{pure, terminate, modify, ◌>>=◌, ◌>>◌}
use wow_so_distributed.Machine.{M, call}
use wow_so_distributed.LocalReorder.{FuseFileInfo, record_write}
use wow_so_distributed.Inject.{error_inject, noop_code, crash_code, reorder_local_code, delay_code}
use wow_so_distributed.Inject.FuseOps.{op_read, op_write}
use wow_so_distributed.Ops.Prologue.{fd_of, mark_dirty}

module _ (env : Env) where
  -- `fd = open(path, flags)` where `fi` is null, else `fi->fh`, with the `errno` that a -1 leaves.
  unfoldable pub open_or_fh : Bytes → ℤ → Option FuseFileInfo → M (ℤ × ℕ)
  unfolding call
  open_or_fh path flags none = do
    r ← call env (Call.open_file path flags none)
    pure (r.ret, r.errno)
  open_or_fh path flags (some fi) =
      if is_minus_one (fd_of fi.fh)
      then (do last ← call env Call.read_errno; pure (fd_of fi.fh, last.errno))
      else pure (fd_of fi.fh, 0)

  -- pread or pwrite and what follows it: -errno, or the count as an int.
  abbrev count_or_errno : Call → M ℤ
  count_or_errno c = do
    r ← call env c
    pure (if is_minus_one (int32 r.ret) then neg (pos r.errno) else int32 r.ret)

  unfoldable pub close_if_opened : Option FuseFileInfo → ℤ → M (Unit {0})
  unfolding call
  close_if_opened none fd = do call env (Call.close fd); pure tt
  close_if_opened (some fi) fd = pure tt

  unfoldable pub unreliable_read : Bytes → ℕ → ℤ → Option FuseFileInfo → M (ℤ × Bytes)
  unfolding call open_or_fh close_if_opened
  unreliable_read path size offset fi = do
    ret ← error_inject env path op_read
    if eq_ℤ ret noop_code
        then pure (pos 0, [])
        else if eq_ℤ ret crash_code
        then terminate
        else if not (is_zero ret)
        then pure (ret, [])
        else (do
          (fd, errno) ← open_or_fh path (pos 0) fi
          if is_minus_one fd then pure (neg (pos errno), []) else (do
            r ← call env (Call.pread fd size offset)
            close_if_opened fi fd
            pure (
                if is_minus_one (int32 r.ret)
                then (neg (pos r.errno), [])
                else (int32 r.ret, r.bytes))))

  unfoldable pub mark_or_close : Option FuseFileInfo → ℤ → M (Unit {0})
  unfolding call mark_dirty
  mark_or_close none fd = do call env (Call.close fd); pure tt
  mark_or_close (some fi) fd = mark_dirty fd

  -- `buf` is what the pointer leads to: pwrite may read past it. O_WRONLY is 1. A file that was
  -- given by a descriptor is marked dirty also where the write failed.
  unfoldable pub wow_write : Bytes → Bytes → ℕ → ℤ → Option FuseFileInfo → M ℤ
  unfolding call open_or_fh mark_or_close
  wow_write path buf size offset fi = do
    (fd, errno) ← open_or_fh path (pos 1) fi
    if is_minus_one fd then pure (neg (pos errno)) else (do
      ret ← count_or_errno (Call.pwrite fd buf size offset)
      mark_or_close fi fd
      pure ret)

  -- RecordWrite copies *fi: a null pointer ends the process.
  unfoldable pub record_pending : Bytes → Bytes → ℕ → ℤ → Option FuseFileInfo → M ℤ
  record_pending path buf size offset none = terminate
  record_pending path buf size offset (some fi) = do
    modify (λ s. record s { write_queue = record_write path buf size offset fi s.write_queue })
    pure (int32 (pos size))

  unfoldable pub unreliable_write : Bytes → Bytes → ℕ → ℤ → Option FuseFileInfo → M ℤ
  unfolding record_pending wow_write
  unreliable_write path buf size offset fi = do
    ret ← error_inject env path op_write
    if eq_ℤ ret noop_code
        then pure (pos 0)
        else if eq_ℤ ret reorder_local_code || eq_ℤ ret delay_code
        then record_pending path buf size offset fi
        else if not (is_zero ret)
        then pure ret
        else wow_write path buf size offset fi
