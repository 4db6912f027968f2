-- ===== src/Ops/Close.antt =====
-- wowFS/unreliablefs/unreliablefs_ops.c: flush and release.
use wow_so_distributed.Base.{
  ◌==◌, ℤ, pos, negsuc, is_zero, eq_ℤ, Bool, true, false, not, Option, none, some, List, [], ◌∷◌,
  Bytes, eq_bytes, if◌then◌else◌,
}
use wow_so_distributed.Host.{Call, Env}
use wow_so_distributed.Exec.{pure, terminate, gets, modify, ◌>>=◌, ◌>>◌}
use wow_so_distributed.Machine.{M, Process, WritebackOp, Kind, close, flush, call}
use wow_so_distributed.LocalReorder.{FuseFileInfo, WriteOp, wow_kill_phrase, fisher_yates_shuffle}
use wow_so_distributed.Cache.{validate}
use wow_so_distributed.Manager.{writeback_to_server}
use wow_so_distributed.Writeback
use wow_so_distributed.Inject.{
  error_inject, noop_code, crash_code, reorder_local_code, reorder_writeback_code,
}
use wow_so_distributed.Inject.FuseOps.{op_flush, op_release}
use wow_so_distributed.Ops.Prologue.{fd_of, zero_or_errno, mark_closed}
use wow_so_distributed.Ops.Io.{wow_write}

-- pendingOps_ of the process.
abbrev pub pending : Process → List WritebackOp
pending s = s.pending_ops

abbrev pub set_pending : List WritebackOp → Process → Process
set_pending ops s = record s { pending_ops = ops }

module _ (env : Env) where
  unfoldable pub unreliable_release_impl : Bytes → Option FuseFileInfo → M ℤ
  unfolding call mark_closed
  unreliable_release_impl path none = pure (negsuc 0)
  unreliable_release_impl path (some fi) =
      if fi.fh == 0
      then pure (negsuc 0)
      else if not (validate path (fd_of fi.fh))
      then pure (negsuc 0)
      else (do
        written ← writeback_to_server env path (fd_of fi.fh)
        if not written then pure (negsuc 0) else (do
          r ← call env (Call.close (fd_of fi.fh))
          mark_closed (fd_of fi.fh)
          pure (zero_or_errno r)))

  -- WritebackOp::apply; the results are dropped.
  unfoldable pub apply_kind : Kind → WritebackOp → M (Unit {0})
  apply_kind close op = do unreliable_release_impl op.file_path (some op.fuse_file_info); pure tt
  apply_kind flush op = do
    writeback_to_server env op.file_path (fd_of op.fuse_file_info.fh)
    pure tt

  unfoldable pub apply : WritebackOp → M (Unit {0})
  unfolding apply_kind
  apply op = apply_kind op.kind op

  unfoldable pub add_new_writeback : Bytes → FuseFileInfo → Bool → M (Unit {0})
  unfolding Writeback.add_new_writeback
  add_new_writeback = Writeback.add_new_writeback pending set_pending apply

  unfoldable pub on_file_op : Bytes → M (Unit {0})
  unfolding Writeback.on_file_op
  on_file_op = Writeback.on_file_op pending set_pending apply

  -- What the watchdog's thread does each second.
  unfoldable pub pop_one : M (Unit {0})
  unfolding Writeback.pop_one
  pop_one = Writeback.pop_one pending set_pending apply

  unfoldable pub unreliable_release : Bytes → FuseFileInfo → M ℤ
  unfolding add_new_writeback
  unreliable_release path fi = do
    ret ← error_inject env path op_release
    if eq_ℤ ret noop_code
        then pure (pos 0)
        else if eq_ℤ ret reorder_writeback_code
        then (do add_new_writeback path fi true; pure (pos 0))
        else if eq_ℤ ret crash_code
        then terminate
        else if not (is_zero ret)
        then pure ret
        else unreliable_release_impl path (some fi)

  -- The queue's writes in order. The kill phrase raises SIGSEGV, which ends the process. The queue
  -- is not emptied.
  unfoldable pub write_all : List WriteOp → M (Unit {0})
  write_all [] = pure tt
  write_all (op ∷ rest) =
      if eq_bytes op.buf wow_kill_phrase
      then terminate
      else (do wow_write env op.path op.buf op.size op.offset (some op.fi); write_all rest)

  -- The writeback, or its delay: the result is false where flush returns -1.
  unfoldable pub flush_writeback : Bool → Bytes → FuseFileInfo → M Bool
  unfolding add_new_writeback
  flush_writeback delay path fi =
      if fi.fh == 0
      then pure true
      else if delay
      then (do add_new_writeback path fi false; pure true)
      else writeback_to_server env path (fd_of fi.fh)

  unfoldable pub close_dup : FuseFileInfo → M ℤ
  unfolding call
  close_dup fi = do
    d ← call env (Call.dup (fd_of fi.fh))
    r ← call env (Call.close d.ret)
    pure (zero_or_errno r)

  -- The part behind the tests of `ret`.
  unfoldable pub finish_flush : Bool → Bytes → FuseFileInfo → M ℤ
  unfolding write_all flush_writeback close_dup
  finish_flush delay path fi = do
    queue ← gets (λ s. s.write_queue)
    write_all queue
    written ← flush_writeback delay path fi
    if not written then pure (negsuc 0) else close_dup fi

  -- Shuffle draws from a generator seeded by std::random_device: one draw for each index.
  unfoldable pub shuffle_queue : Process → Process
  shuffle_queue s = record s {
    write_queue = fisher_yates_shuffle (env.draw s.history) s.write_queue;
  }

  unfoldable pub unreliable_flush : Bytes → FuseFileInfo → M ℤ
  unfolding finish_flush shuffle_queue
  unreliable_flush path fi = do
    ret ← error_inject env path op_flush
    if eq_ℤ ret noop_code
        then pure (pos 0)
        else if eq_ℤ ret reorder_local_code
        then (do modify shuffle_queue; finish_flush false path fi)
        else if eq_ℤ ret reorder_writeback_code
        then finish_flush true path fi
        else if eq_ℤ ret crash_code
        then terminate
        else if not (is_zero ret)
        then pure ret
        else finish_flush false path fi
