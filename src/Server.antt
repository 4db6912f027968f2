-- ===== src/Server.antt =====
-- wowRPC/WowRPCServer.H: WowFSServiceImpl, the server's side of each call. A handler works on what
-- the server process has called so far; the response or the messages that it writes are its result.
pub mod Names
pub mod Downloads
pub mod Uploads
pub mod Commit
pub mod FileStream
pub mod DirStream
pub mod Arrival
pub mod Startup
pub mod Atomic
pub mod Installed
pub mod Journey
use wow_so_distributed.Base.{Bool, true, false, [], ◌∷◌, ◌++◌, Bytes, ◌==◌, if◌then◌else◌}
use wow_so_distributed.Host.{Call, Reply, History, Env}
use wow_so_distributed.Exec.{Exec, returned}

-- The members basedir_ and withCrashOnWrite_.
pub record WowFsServiceImpl : Type 0 where
  pub basedir : Bytes
  pub with_crash_on_write : Bool

-- basedir.back() == '/'
abbrev pub ends_in_slash : Bytes → Bool
ends_in_slash [] = false
ends_in_slash (c ∷ []) = c == b'/'
ends_in_slash (c ∷ d ∷ rest) = ends_in_slash (d ∷ rest)

-- The constructor. A `back()` of an empty string is not defined; it counts as no slash here.
unfoldable pub new_service : Bytes → Bool → WowFsServiceImpl
new_service basedir with_crash_on_write = record {
  basedir = if ends_in_slash basedir then basedir else basedir ++ b'/' ∷ [];
  with_crash_on_write = with_crash_on_write;
}

abbrev pub Handler : Type 0 → Type 0
Handler A = Exec History A

-- A call of the server's process to its kernel.
unfoldable pub sys : Env → Call → Handler Reply
sys env c h = let r = env.answer h c in (returned r, (c, r) ∷ h)
