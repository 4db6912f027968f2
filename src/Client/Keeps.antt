-- ===== src/Client/Keeps.antt =====
-- The methods of wowRPC/WowRPCClient.C touch the history only.
use wow_so_distributed.Base.{ℕ, zero, suc, ℤ, Bytes}
use wow_so_distributed.Host.{Env, Stat, Request}
use wow_so_distributed.Exec.Keeps.{Keeps}
use wow_so_distributed.Machine.{Process}
use wow_so_distributed.Machine.Ambient.{IsAmbient, ambient_rules}
use wow_so_distributed.Client
use wow_so_distributed.Client.{RpcResponse, finish_read, unary}

module _ (env : Env) {P : Process → Type 0} (amb : IsAmbient P) where
  Keeps-unary : (request : Request) → Keeps P (unary env request)
  unfolding unary
  Keeps-unary request = search ambient_rules

  pub Keeps-download_stat :
      (path : Bytes) (buf : Stat) → Keeps P (Client.download_stat env path buf)
  unfolding Client.download_stat
  Keeps-download_stat path buf = search ambient_rules

  pub Keeps-get_xattr :
      (path name value : Bytes) (size : ℕ) → Keeps P (Client.get_xattr env path name value size)
  unfolding Client.get_xattr
  Keeps-get_xattr path name value size = search ambient_rules

  pub Keeps-mkdir : (path : Bytes) (mode : ℤ) → Keeps P (Client.mkdir env path mode)
  unfolding Client.mkdir
  Keeps-mkdir path mode = Keeps-unary _

  pub Keeps-access : (path : Bytes) (mode : ℤ) → Keeps P (Client.access env path mode)
  unfolding Client.access
  Keeps-access path mode = Keeps-unary _

  pub Keeps-rmdir : (path : Bytes) → Keeps P (Client.rmdir env path)
  unfolding Client.rmdir
  Keeps-rmdir path = Keeps-unary _

  pub Keeps-open_file : (path : Bytes) (flags : ℤ) → Keeps P (Client.open_file env path flags)
  unfolding Client.open_file
  Keeps-open_file path flags = Keeps-unary _

  pub Keeps-create : (path : Bytes) (mode flags : ℤ) → Keeps P (Client.create env path mode flags)
  unfolding Client.create
  Keeps-create path mode flags = Keeps-unary _

  pub Keeps-unlink : (path : Bytes) → Keeps P (Client.unlink env path)
  unfolding Client.unlink
  Keeps-unlink path = Keeps-unary _

  pub Keeps-rename : (old new : Bytes) → Keeps P (Client.rename env old new)
  unfolding Client.rename
  Keeps-rename old new = Keeps-unary _

  pub Keeps-link : (old new : Bytes) → Keeps P (Client.link env old new)
  unfolding Client.link
  Keeps-link old new = Keeps-unary _

  pub Keeps-symlink : (target path : Bytes) → Keeps P (Client.symlink env target path)
  unfolding Client.symlink
  Keeps-symlink target path = Keeps-unary _

  Keeps-write_chunks :
      (fuel : ℕ) (path buf : Bytes) (at remaining : ℕ)
      → Keeps P (Client.write_chunks env fuel path buf at remaining)
  unfolding Client.write_chunks
  Keeps-write_chunks zero path buf at remaining = search ambient_rules
  Keeps-write_chunks (suc fuel) path buf at remaining =
      search (ambient_rules, Keeps-write_chunks fuel path buf) depth 8

  pub Keeps-writeback : (path buf : Bytes) → Keeps P (Client.writeback env path buf)
  unfolding Client.writeback
  Keeps-writeback path buf = search (ambient_rules, Keeps-write_chunks)

  Keeps-finish_read : (r : RpcResponse × ℤ × Bytes) → Keeps P (finish_read env r)
  unfolding finish_read
  Keeps-finish_read r = search ambient_rules

  pub Keeps-download_file : (path : Bytes) (size : ℤ) → Keeps P (Client.download_file env path size)
  unfolding Client.download_file
  Keeps-download_file path size = search (ambient_rules, Keeps-finish_read)

  pub Keeps-download_dir : (path : Bytes) → Keeps P (Client.download_dir env path)
  unfolding Client.download_dir
  Keeps-download_dir path = search (ambient_rules, Keeps-finish_read)

pub ruleset client_rules = (
  Keeps-download_stat, Keeps-get_xattr, Keeps-mkdir, Keeps-access, Keeps-rmdir, Keeps-open_file,
  Keeps-create, Keeps-unlink, Keeps-rename, Keeps-link, Keeps-symlink, Keeps-writeback,
  Keeps-download_file, Keeps-download_dir,
)
