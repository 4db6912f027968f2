-- ===== src/Client.antt =====
-- wowRPC/WowRPCClient.C: one function per method of WowRPCClient. `Call.rpc` and the stream calls
-- are those of the stub.
pub mod Keeps
pub mod Chunks
use wow_so_distributed.Base.{
  ℕ, zero, suc, ◌+◌, ◌-◌, ◌^◌, ◌==◌, ℤ, pos, negsuc, ◌+ℤ◌, is_negative, int32, not, List, [], ◌∷◌,
  ◌++◌, Bytes, length, take, drop, min, replicate, if◌then◌else◌,
}
use wow_so_distributed.Host.{Call, Request, Reply, WriteRequest, ReadResponse, Stat, Env}
use wow_so_distributed.Exec.{pure, terminate, ◌>>=◌, ◌>>◌}
use wow_so_distributed.Machine.{M, call}

pub record RpcResponse : Type 0 where
  pub ret : ℤ
  pub server_errno : ℤ

-- RPCResponse(-1, -1)
abbrev pub rpc_failed : RpcResponse
rpc_failed = record { ret = negsuc 0; server_errno = negsuc 0 }

-- What a method makes of a finished call: `status.ok()` and the message.
abbrev pub response_of : Reply → RpcResponse
response_of r = if r.ok then record { ret = r.ret; server_errno = r.server_errno } else rpc_failed

-- 1 << 20
abbrev pub chunk_size : ℕ
chunk_size = 2 ^ 20

-- The request for one chunk, with the loop's `pos` and `epochSize`.
abbrev pub chunk_request : Bytes → Bytes → ℕ → ℕ → WriteRequest
chunk_request path buf at epoch_size = record {
  path = path;
  buf = take epoch_size (drop at buf);
  size = epoch_size;
  offset = at;
}

-- A count that is not negative, as a size.
abbrev size_of : ℤ → ℕ
size_of (pos n) = n
size_of (negsuc n) = 0

-- The loop over reader->Read of DownloadFile and DownloadDir, over the messages of the stream: it
-- ends with them or at a negative `ret`. The result is the last response, the bytes counted and
-- the text. `response` starts with fields that are 0.
unfoldable pub read_chunks : List ReadResponse → RpcResponse → ℤ → Bytes → RpcResponse × ℤ × Bytes
read_chunks [] response bytes_read buf = (response, bytes_read, buf)
read_chunks (message ∷ rest) response bytes_read buf =
    let response : RpcResponse = record {
      ret = message.ret;
      server_errno = message.server_errno;
    } in
    let more =
      read_chunks rest response (bytes_read +ℤ message.ret)
        (buf ++ take (size_of message.ret) message.buf) in
    if is_negative message.ret then (response, bytes_read, buf) else more

abbrev pub no_response : RpcResponse
no_response = record { ret = pos 0; server_errno = pos 0 }

module _ (env : Env) where
  unary : Request → M RpcResponse
  unfolding call
  unary request = do r ← call env (Call.rpc request); pure (response_of r)

  -- The stat beside the response; `buf` is left as it was where the call fails.
  unfoldable pub download_stat : Bytes → Stat → M (RpcResponse × Stat)
  unfolding call
  download_stat file_name buf = do
    r ← call env (Call.rpc (Request.download_stat file_name))
    pure (response_of r, if r.ok then r.stat else buf)

  unfoldable pub get_xattr : Bytes → Bytes → Bytes → ℕ → M (RpcResponse × Bytes)
  unfolding call
  get_xattr file_path name value size = do
    r ← call env (Call.rpc (Request.get_xattr file_path name size))
    pure (response_of r, if r.ok then r.bytes else value)

  unfoldable pub access : Bytes → ℤ → M RpcResponse
  unfolding unary
  access file_path mode = unary (Request.access file_path mode)

  unfoldable pub mkdir : Bytes → ℤ → M RpcResponse
  unfolding unary
  mkdir dir_name mode = unary (Request.mkdir dir_name mode)

  unfoldable pub rmdir : Bytes → M RpcResponse
  unfolding unary
  rmdir dir_name = unary (Request.rmdir dir_name)

  unfoldable pub open_file : Bytes → ℤ → M RpcResponse
  unfolding unary
  open_file file_name flags = unary (Request.open_file file_name flags)

  unfoldable pub create : Bytes → ℤ → ℤ → M RpcResponse
  unfolding unary
  create file_name mode flags = unary (Request.create file_name mode flags)

  unfoldable pub unlink : Bytes → M RpcResponse
  unfolding unary
  unlink path = unary (Request.unlink path)

  unfoldable pub rename : Bytes → Bytes → M RpcResponse
  unfolding unary
  rename old_path new_path = unary (Request.rename old_path new_path)

  unfoldable pub link : Bytes → Bytes → M RpcResponse
  unfolding unary
  link old_path new_path = unary (Request.link old_path new_path)

  unfoldable pub symlink : Bytes → Bytes → M RpcResponse
  unfolding unary
  symlink target link_path = unary (Request.symlink target link_path)

  unfoldable pub ping : ℤ → M ℤ
  unfolding call
  ping cmd = do
    r ← call env (Call.rpc (Request.test_call cmd))
    pure (if r.ok then r.ret else negsuc 0)

  -- std::string(msgSize, '0') throws for a negative size. The times are only printed.
  unfoldable pub perform_speed_test : ℤ → ℤ → M (Unit {0})
  unfolding call
  perform_speed_test identifier (negsuc n) = terminate
  perform_speed_test identifier (pos msg_size) = do
    call env (Call.rpc (Request.speed_test identifier (replicate msg_size b'0')))
    pure tt

  -- The do loop of Writeback. `fuel` bounds its rounds: the first and one for each further byte.
  unfoldable pub write_chunks : ℕ → Bytes → Bytes → ℕ → ℕ → M (Unit {0})
  unfolding call
  write_chunks zero path buf at remaining = pure tt
  write_chunks (suc fuel) path buf at remaining = do
    let epoch_size = min chunk_size remaining
    let rest = write_chunks fuel path buf (at + epoch_size) (remaining - epoch_size)
    r ← call env (Call.rpc_write (chunk_request path buf at epoch_size))
    if not r.ok then pure tt else if remaining - epoch_size == 0 then pure tt else rest

  unfoldable pub writeback : Bytes → Bytes → M RpcResponse
  unfolding call write_chunks
  writeback path buf = do
    write_chunks (length buf + 1) path buf 0 (length buf)
    r ← call env Call.rpc_write_finish
    pure (response_of r)

  finish_read : RpcResponse × ℤ × Bytes → M (RpcResponse × Bytes)
  unfolding call
  finish_read (response, bytes_read, buf) = do
    status ← call env Call.rpc_read_finish
    let ret = if is_negative response.ret then response.ret else bytes_read
    pure (
      if status.ok
          then record { ret = int32 ret; server_errno = response.server_errno }
          else rpc_failed,
      buf,
    )

  -- buf.reserve is taken to succeed: where `fileSize` + 100 is negative or too large, it throws.
  unfoldable pub download_file : Bytes → ℤ → M (RpcResponse × Bytes)
  unfolding call read_chunks finish_read
  download_file path file_size = do
    stream ← call env (Call.rpc_read_file path file_size)
    finish_read (read_chunks stream.messages no_response (pos 0) [])

  unfoldable pub download_dir : Bytes → M (RpcResponse × Bytes)
  unfolding call read_chunks finish_read
  download_dir path = do
    stream ← call env (Call.rpc_read_dir path)
    finish_read (read_chunks stream.messages no_response (pos 0) [])
