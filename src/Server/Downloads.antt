-- ===== src/Server/Downloads.antt =====
-- wowRPC/WowRPCServer.H: ReadFile and ReadDir, which write a stream of chunks.
use wow_so_distributed.Base.{
  ℕ, zero, suc, ◌+◌, ◌-◌, ◌==◌, ◌^◌, ℤ, pos, negsuc, is_negative, is_minus_one, int32, none, List,
  [], ◌∷◌, ◌++◌, Bytes, length, take, drop, min, not, if◌then◌else◌,
}
use wow_so_distributed.Base.Int.{pos_part}
use wow_so_distributed.Host.{Call, ReadResponse, Env}
use wow_so_distributed.Exec.{pure, terminate, ◌>>=◌, ◌>>◌}
use wow_so_distributed.Cache.Files.{filled}
use wow_so_distributed.Server.{WowFsServiceImpl, Handler, sys}

abbrev chunk_size : ℕ
chunk_size = 2 ^ 20

-- The loop that writes `buf` from `at` on. Each round writes at least one byte, so `remaining`
-- rounds are enough.
unfoldable pub chunks_from : ℕ → Bytes → ℕ → ℕ → List ReadResponse
chunks_from zero buf at remaining = []
chunks_from (suc fuel) buf at remaining =
    let epoch_size = min remaining chunk_size in
    let response : ReadResponse = record {
      ret = pos epoch_size;
      server_errno = pos 0;
      buf = take epoch_size (drop at buf);
    } in
    let rest = chunks_from fuel buf (at + epoch_size) (remaining - epoch_size) in
    if remaining == 0 then [] else response ∷ rest

abbrev failure : ℕ → List ReadResponse
failure errno = record { ret = negsuc 0; server_errno = pos errno; buf = [] } ∷ []

module _ (env : Env) (service : WowFsServiceImpl) where
  -- The part of ReadFile behind the open, for a `bytesToRead` that is not negative. The error
  -- number is read after the close. A read gives at most 0x7ffff000 bytes, which an int holds.
  unfoldable pub send_file : ℤ → ℕ → Handler (List ReadResponse)
  unfolding sys chunks_from
  send_file fd bytes_to_read = do
    r ← sys env (Call.pread fd bytes_to_read (pos 0))
    c ← sys env (Call.close fd)
    let buf = filled (bytes_to_read + 100) r.bytes
    pure (
        if is_negative r.ret
        then failure c.errno
        else chunks_from (pos_part r.ret) buf 0 (pos_part r.ret))

  -- buf.resize throws for a negative size, which ends the handler. (From -100 to -1 the pread would
  -- write behind the buffer, and within 100 of 2 ^ 31 the int overflows: both are undefined.)
  unfoldable pub send_sized : ℤ → ℤ → Handler (List ReadResponse)
  unfolding send_file
  send_sized fd (pos bytes_to_read) = send_file fd bytes_to_read
  send_sized fd (negsuc n) = terminate

  -- `size` is the request's, an int64 that the client takes from a stat; bytesToRead is an int.
  unfoldable pub serve_read_file : Bytes → ℤ → Handler (List ReadResponse)
  unfolding sys send_sized
  serve_read_file path size = do
    fd ← sys env (Call.open_file (service.basedir ++ path) (pos 0) none)
    if is_minus_one fd.ret then pure (failure fd.errno) else send_sized fd.ret (int32 size)

  -- The loop over readdir, which gives a struct dirent until `ok` is false, for at most `fuel`
  -- entries: with more, the listing is cut where the source would go on.
  unfoldable pub read_entries : ℕ → Handler Bytes
  unfolding sys
  read_entries zero = pure []
  read_entries (suc fuel) = do
    de ← sys env Call.readdir
    if not de.ok then pure [] else (do rest ← read_entries fuel; pure (de.bytes ++ rest))

  -- opendir gives NULL where `ok` is false.
  unfoldable pub serve_read_dir : ℕ → Bytes → Handler (List ReadResponse)
  unfolding sys read_entries chunks_from
  serve_read_dir fuel path = do
    dir ← sys env (Call.opendir (service.basedir ++ path))
    if not dir.ok then pure (failure dir.errno) else (do
      buf ← read_entries fuel
      sys env (Call.closedir dir.ret)
      pure (chunks_from (length buf) buf 0 (length buf)))
