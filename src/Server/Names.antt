-- ===== src/Server/Names.antt =====
-- wowRPC/WowRPCServer.H: the handlers with one response, and those that write one message. The
-- error number is set after every call, failed or not.
use wow_so_distributed.Base.{
  ℕ, ◌+◌, ◌-◌, ◌/◌, ◌%◌, ◌==◌, ℤ, pos, negsuc, some, Bytes, ◌++◌, if◌then◌else◌,
}
use wow_so_distributed.Host.{Call, Request, Reply, Env}
use wow_so_distributed.Exec.{pure, ◌>>=◌, ◌>>◌}
use wow_so_distributed.Client.{RpcResponse}
use wow_so_distributed.Server.{WowFsServiceImpl, Handler, sys}

-- set_ret( ret ), set_server_errno( errno )
abbrev pub respond : Reply → RpcResponse
respond r = record { ret = r.ret; server_errno = pos r.errno }

-- flags | O_CREAT: bit 6.
unfoldable pub or_creat : ℤ → ℤ
or_creat (pos n) = pos (if n / 64 % 2 == 0 then n + 64 else n)
or_creat (negsuc n) = negsuc (if n / 64 % 2 == 0 then n else n - 64)

-- 0777
abbrev pub all_modes : ℕ
all_modes = 511

module _ (env : Env) (service : WowFsServiceImpl) where
  abbrev pub below : Bytes → Bytes
  below path = service.basedir ++ path

  abbrev pub respond_to : Call → Handler RpcResponse
  respond_to c = do r ← sys env c; pure (respond r)

  -- The struct stat travels beside the response.
  unfoldable pub serve_download_stat : Bytes → Handler Reply
  unfolding sys
  serve_download_stat file_name = sys env (Call.lstat (below file_name))

  unfoldable pub serve_get_xattr : Bytes → Bytes → ℕ → Handler Reply
  unfolding sys
  serve_get_xattr file_path name size = sys env (Call.getxattr (below file_path) name size)

  unfoldable pub serve_access : Bytes → ℤ → Handler RpcResponse
  unfolding sys
  serve_access file_path mode = respond_to (Call.access (below file_path) mode)

  -- The request's mode is not used.
  unfoldable pub serve_mkdir : Bytes → ℤ → Handler RpcResponse
  unfolding sys
  serve_mkdir dir_name mode = respond_to (Call.mkdir (below dir_name) (pos all_modes))

  unfoldable pub serve_rmdir : Bytes → Handler RpcResponse
  unfolding sys
  serve_rmdir dir_name = respond_to (Call.rmdir (below dir_name))

  -- The response is set in front of the close.
  unfoldable pub serve_open : Bytes → ℤ → Handler RpcResponse
  unfolding sys or_creat
  serve_open file_name flags = do
    r ← sys env (Call.open_file (below file_name) (or_creat flags) (some all_modes))
    sys env (Call.close r.ret)
    pure (respond r)

  unfoldable pub serve_create : Bytes → ℤ → ℤ → Handler RpcResponse
  unfolding sys
  serve_create file_name mode flags = do
    r ← sys env (Call.open_file (below file_name) flags (some all_modes))
    sys env (Call.close r.ret)
    pure (respond r)

  unfoldable pub serve_unlink : Bytes → Handler RpcResponse
  unfolding sys
  serve_unlink path = respond_to (Call.unlink (below path))

  unfoldable pub serve_rename : Bytes → Bytes → Handler RpcResponse
  unfolding sys
  serve_rename old_path new_path = respond_to (Call.rename (below old_path) (below new_path))

  unfoldable pub serve_link : Bytes → Bytes → Handler RpcResponse
  unfolding sys
  serve_link old_path new_path = respond_to (Call.link (below old_path) (below new_path))

  -- The target is taken as it is.
  unfoldable pub serve_symlink : Bytes → Bytes → Handler RpcResponse
  unfolding sys
  serve_symlink target link_path = respond_to (Call.symlink target (below link_path))

  unfoldable pub serve_test_call : ℤ → Handler RpcResponse
  serve_test_call sup = pure (record { ret = sup; server_errno = pos 0 })

  unfoldable pub serve_speed_test : ℤ → Bytes → Handler RpcResponse
  serve_speed_test identifier text = pure (record { ret = pos 0; server_errno = pos 0 })

  -- The response to a unary request.
  unfoldable pub serve_unary : Request → Handler RpcResponse
  unfolding serve_download_stat serve_get_xattr serve_access serve_mkdir serve_rmdir serve_open
      serve_create serve_unlink serve_rename serve_link serve_symlink serve_test_call
      serve_speed_test
  serve_unary (Request.download_stat f) = do r ← serve_download_stat f; pure (respond r)
  serve_unary (Request.get_xattr f n size) = do r ← serve_get_xattr f n size; pure (respond r)
  serve_unary (Request.access f mode) = serve_access f mode
  serve_unary (Request.mkdir d mode) = serve_mkdir d mode
  serve_unary (Request.rmdir d) = serve_rmdir d
  serve_unary (Request.open_file f flags) = serve_open f flags
  serve_unary (Request.create f mode flags) = serve_create f mode flags
  serve_unary (Request.unlink p) = serve_unlink p
  serve_unary (Request.rename old new) = serve_rename old new
  serve_unary (Request.link old new) = serve_link old new
  serve_unary (Request.symlink target p) = serve_symlink target p
  serve_unary (Request.test_call sup) = serve_test_call sup
  serve_unary (Request.speed_test identifier text) = serve_speed_test identifier text
