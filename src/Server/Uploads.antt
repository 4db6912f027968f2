-- ===== src/Server/Uploads.antt =====
-- wowRPC/WowRPCServer.H: Writeback. The chunks go to a temporary file, which is renamed at the end.
pub mod Upheld
use wow_so_distributed.Base.{
  ℕ, ℤ, pos, negsuc, ◌+ℤ◌, is_minus_one, is_positive, int32, some, List, [], ◌∷◌, ◌++◌, Bytes,
  codes, ◌⊎◌, inl, inr, if◌then◌else◌,
}
use wow_so_distributed.Host.{Call, WriteRequest, Env}
use wow_so_distributed.Exec.{pure, terminate, ◌>>=◌, ◌>>◌}
use wow_so_distributed.Client.{RpcResponse}
use wow_so_distributed.Server.{WowFsServiceImpl, Handler, sys}

-- The locals of Writeback.
pub record Upload : Type 0 where
  pub num_bytes_written : ℤ
  pub output_fd : ℤ
  pub final_path : Bytes
  pub tmp_path : Bytes

abbrev pub no_upload : Upload
no_upload = record {
  num_bytes_written = pos 0;
  output_fd = negsuc 0;
  final_path = [];
  tmp_path = [];
}

abbrev pub upload_failed : ℕ → RpcResponse
upload_failed errno = record { ret = negsuc 0; server_errno = pos errno }

-- O_WRONLY | O_CREAT | O_TRUNC
abbrev truncate_flags : ℤ
truncate_flags = pos 577

abbrev pub with_paths : Bytes → WriteRequest → Upload → Upload
with_paths basedir req up = record up {
  final_path = basedir ++ req.path;
  tmp_path = (basedir ++ req.path) ++ codes ".wow";
}

-- A response is sent, or the loop goes on with the locals.
abbrev pub Round : Type 0
Round = RpcResponse ⊎ Upload

module _ (env : Env) (service : WowFsServiceImpl) where
  -- The open in front of the first chunk.
  unfoldable pub open_output : Upload → Handler Round
  unfolding sys
  open_output up =
      if is_minus_one up.output_fd
      then (do
        r ← sys env (Call.open_file up.tmp_path truncate_flags (some 511))
        pure (
            if is_minus_one r.ret
            then inl (upload_failed r.errno)
            else inr (record up { output_fd = r.ret })))
      else pure (inr up)

  unfoldable pub write_output : WriteRequest → Round → Handler Round
  unfolding sys
  write_output req (inl response) = pure (inl response)
  write_output req (inr up) = do
    res ← sys env (Call.pwrite up.output_fd req.buf req.size (pos req.offset))
    pure (
        if is_minus_one res.ret
        then inl (upload_failed res.errno)
        else inr (record up { num_bytes_written = up.num_bytes_written +ℤ res.ret }))

  -- The loop over reader->Read.
  unfoldable pub receive : List WriteRequest → Round → Handler Round
  unfolding open_output write_output
  receive reqs (inl response) = pure (inl response)
  receive [] (inr up) = pure (inr up)
  receive (req ∷ rest) (inr up) = do
    opened ← open_output (with_paths service.basedir req up)
    written ← write_output req opened
    receive rest written

  unfoldable pub settle : Upload → Handler (Unit {0})
  unfolding sys
  settle up =
      if is_positive up.output_fd
      then (do sys env (Call.fsync up.output_fd); sys env (Call.close up.output_fd); pure tt)
      else pure tt

  -- What follows the loop. The result of the rename is not looked at.
  unfoldable pub commit : Round → Handler RpcResponse
  unfolding sys settle
  commit (inl response) = pure response
  commit (inr up) = do
    settle up
    if service.with_crash_on_write then terminate else (do
      sys env (Call.rename up.tmp_path up.final_path)
      pure (record { ret = int32 up.num_bytes_written; server_errno = pos 0 }))

  unfoldable pub serve_writeback : List WriteRequest → Handler RpcResponse
  unfolding receive commit
  serve_writeback reqs = do end ← receive reqs (inr no_upload); commit end
