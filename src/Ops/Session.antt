-- ===== src/Ops/Session.antt =====
-- The life of a mounted client: the handlers of wowFS/unreliablefs/unreliablefs_ops.c in any order,
-- and the watchdog of WowWritebackReorderManager.H between them. A handler is one step here.
use wow_so_distributed.Base.{ℕ, ℤ, Bool, Option, Bytes, [], true, false, ◌≡◌, refl}
use wow_so_distributed.Host.{Stat, Env}
use wow_so_distributed.Machine.{Process, UnreliablefsConfig}
use wow_so_distributed.Machine.Stable.{
  IsStable, CacheOk, CacheOk-IsStable, IsQueueFree, CacheOk-IsQueueFree,
}
use wow_so_distributed.LocalReorder.{FuseFileInfo}
use wow_so_distributed.Cache
use wow_so_distributed.Cache.Consistent.{IsConsistent-empty}
use wow_so_distributed.Ops.Directory
use wow_so_distributed.Ops.Local
use wow_so_distributed.Ops.Attributes
use wow_so_distributed.Ops.Io.{unreliable_read, unreliable_write}
use wow_so_distributed.Ops.Close.{pop_one, unreliable_flush, unreliable_release}
use wow_so_distributed.Ops.Open.{unreliable_open, unreliable_create}
use wow_so_distributed.Ops.Opens.{
  IsNew, settle_first, unreliable_open-OpensBehind, unreliable_create-OpensOk,
}
use wow_so_distributed.Ops.Keeps.{
  Keeps-unreliable_flush, Keeps-unreliable_release, Keeps-unreliable_write, Keeps-unreliable_read,
  Keeps-pop_one,
}
use wow_so_distributed.Ops.KeepsNames

-- The process after its start, with the injections that were read.
abbrev pub started : UnreliablefsConfig → Process
started conf = record {
  history = [];
  cmgr = Cache.empty;
  write_queue = [];
  pending_ops = [];
  conf = conf;
}

-- A request of FUSE that opens no file, or the watchdog's turn.
pub data Turn : Type 0 where
  lstat : Bytes → Stat → Turn
  getattr : Bytes → Stat → Turn
  getxattr : Bytes → Bytes → Bytes → ℕ → Turn
  readdir : Bytes → Turn
  readlink : Bytes → ℕ → Turn
  mknod : Bytes → ℤ → ℤ → Turn
  chmod : Bytes → ℤ → Turn
  chown : Bytes → ℤ → ℤ → Turn
  truncate : Bytes → ℤ → Turn
  statfs : Bytes → Turn
  fsync : Bytes → Bool → FuseFileInfo → Turn
  setxattr : Bytes → Bytes → Bytes → ℕ → ℤ → Turn
  listxattr : Bytes → ℕ → Turn
  removexattr : Bytes → Bytes → Turn
  fsyncdir : Bytes → Bool → Turn
  ftruncate : Bytes → ℤ → FuseFileInfo → Turn
  fgetattr : Bytes → Stat → FuseFileInfo → Turn
  lock : Bytes → FuseFileInfo → ℤ → Turn
  ioctl : Bytes → ℤ → FuseFileInfo → Turn
  flock : Bytes → FuseFileInfo → ℤ → Turn
  utimens : Bytes → Turn
  fallocate : Bytes → ℤ → ℤ → ℤ → Option FuseFileInfo → Turn
  mkdir : Bytes → ℤ → Turn
  unlink : Bytes → Turn
  rmdir : Bytes → Turn
  symlink : Bytes → Bytes → Turn
  rename : Bytes → Bytes → Turn
  link : Bytes → Bytes → Turn
  access : Bytes → ℤ → Turn
  read : Bytes → ℕ → ℤ → Option FuseFileInfo → Turn
  write : Bytes → Bytes → ℕ → ℤ → Option FuseFileInfo → Turn
  flush : Bytes → FuseFileInfo → Turn
  release : Bytes → FuseFileInfo → Turn
  watchdog : Turn

-- Whether the request may put a write into the queue.
abbrev pub is_write : Turn → Bool
is_write (write _ _ _ _ _) = true
is_write _ = false

module _ (env : Env) where
  -- A handler's state after it; its results are not looked at here.
  unfoldable pub take_turn : Turn → Process → Process
  take_turn (lstat path buf) s = (Attributes.unreliable_lstat env path buf s).1
  take_turn (getattr path buf) s = (Attributes.unreliable_getattr env path buf s).1
  take_turn (getxattr path name value size) s =
      (Attributes.unreliable_getxattr env path name value size s).1
  take_turn (readdir path) s = (Attributes.unreliable_readdir env path s).1
  take_turn (readlink path size) s = (Local.unreliable_readlink env path size s).1
  take_turn (mknod path mode dev) s = (Local.unreliable_mknod env path mode dev s).1
  take_turn (chmod path mode) s = (Local.unreliable_chmod env path mode s).1
  take_turn (chown path owner group) s = (Local.unreliable_chown env path owner group s).1
  take_turn (truncate path length) s = (Local.unreliable_truncate env path length s).1
  take_turn (statfs path) s = (Local.unreliable_statfs env path s).1
  take_turn (fsync path datasync fi) s = (Local.unreliable_fsync env path datasync fi s).1
  take_turn (setxattr path name value size flags) s =
      (Local.unreliable_setxattr env path name value size flags s).1
  take_turn (listxattr path size) s = (Local.unreliable_listxattr env path size s).1
  take_turn (removexattr path name) s = (Local.unreliable_removexattr env path name s).1
  take_turn (fsyncdir path datasync) s = (Local.unreliable_fsyncdir env path datasync s).1
  take_turn (ftruncate path length fi) s = (Local.unreliable_ftruncate env path length fi s).1
  take_turn (fgetattr path buf fi) s = (Local.unreliable_fgetattr env path buf fi s).1
  take_turn (lock path fi cmd) s = (Local.unreliable_lock env path fi cmd s).1
  take_turn (ioctl path cmd fi) s = (Local.unreliable_ioctl env path cmd fi s).1
  take_turn (flock path fi op) s = (Local.unreliable_flock env path fi op s).1
  take_turn (utimens path) s = (Local.unreliable_utimens env path s).1
  take_turn (fallocate path mode offset len fi) s =
      (Local.unreliable_fallocate env path mode offset len fi s).1
  take_turn (mkdir path mode) s = (Directory.unreliable_mkdir env path mode s).1
  take_turn (unlink path) s = (Directory.unreliable_unlink env path s).1
  take_turn (rmdir path) s = (Directory.unreliable_rmdir env path s).1
  take_turn (symlink target path) s = (Directory.unreliable_symlink env target path s).1
  take_turn (rename old new) s = (Directory.unreliable_rename env old new s).1
  take_turn (link old new) s = (Directory.unreliable_link env old new s).1
  take_turn (access path mode) s = (Directory.unreliable_access env path mode s).1
  take_turn (read path size offset fi) s = (unreliable_read env path size offset fi s).1
  take_turn (write path buf size offset fi) s = (unreliable_write env path buf size offset fi s).1
  take_turn (flush path fi) s = (unreliable_flush env path fi s).1
  take_turn (release path fi) s = (unreliable_release env path fi s).1
  take_turn watchdog s = (pop_one env s).1

  -- What every request keeps.
  pub take_turn-stable :
      {P : Process → Type 0}
      → IsStable P
      → (t : Turn) (s : Process) → (is_write t ≡ true → IsQueueFree P)
      → P s
      → P (take_turn t s)
  unfolding take_turn Local.unreliable_chown Local.unreliable_flock Local.unreliable_fsync
      Local.unreliable_lock Local.unreliable_mknod Local.unreliable_removexattr
      Local.unreliable_setxattr Local.unreliable_statfs Local.unreliable_truncate
      Local.unreliable_utimens
  take_turn-stable st (lstat path buf) s free h = (KeepsNames.Keeps-lstat env st path buf).at s h
  take_turn-stable st (getattr path buf) s free h =
      (KeepsNames.Keeps-getattr env st path buf).at s h
  take_turn-stable st (getxattr path name value size) s free h =
      (KeepsNames.Keeps-getxattr env st path name value size).at s h
  take_turn-stable st (readdir path) s free h = (KeepsNames.Keeps-readdir env st path).at s h
  take_turn-stable st (readlink path size) s free h =
      (KeepsNames.Keeps-readlink env st path size).at s h
  take_turn-stable st (mknod path mode dev) s free h =
      (KeepsNames.Keeps-one_call env st path _ _).at s h
  take_turn-stable st (chmod path mode) s free h = (KeepsNames.Keeps-chmod env st path mode).at s h
  take_turn-stable st (chown path owner group) s free h =
      (KeepsNames.Keeps-one_call env st path _ _).at s h
  take_turn-stable st (truncate path length) s free h =
      (KeepsNames.Keeps-one_call env st path _ _).at s h
  take_turn-stable st (statfs path) s free h = (KeepsNames.Keeps-one_call env st path _ _).at s h
  take_turn-stable st (fsync path datasync fi) s free h =
      (KeepsNames.Keeps-one_call env st path _ _).at s h
  take_turn-stable st (setxattr path name value size flags) s free h =
      (KeepsNames.Keeps-one_call env st path _ _).at s h
  take_turn-stable st (listxattr path size) s free h =
      (KeepsNames.Keeps-listxattr env st path size).at s h
  take_turn-stable st (removexattr path name) s free h =
      (KeepsNames.Keeps-one_call env st path _ _).at s h
  take_turn-stable st (fsyncdir path datasync) s free h =
      (KeepsNames.Keeps-fsyncdir env st path datasync).at s h
  take_turn-stable st (ftruncate path length fi) s free h =
      (KeepsNames.Keeps-ftruncate env st path length fi).at s h
  take_turn-stable st (fgetattr path buf fi) s free h =
      (KeepsNames.Keeps-fgetattr env st path buf fi).at s h
  take_turn-stable st (lock path fi cmd) s free h =
      (KeepsNames.Keeps-one_call env st path _ _).at s h
  take_turn-stable st (ioctl path cmd fi) s free h =
      (KeepsNames.Keeps-ioctl env st path cmd fi).at s h
  take_turn-stable st (flock path fi op) s free h =
      (KeepsNames.Keeps-one_call env st path _ _).at s h
  take_turn-stable st (utimens path) s free h = (KeepsNames.Keeps-one_call env st path _ _).at s h
  take_turn-stable st (fallocate path mode offset len fi) s free h =
      (KeepsNames.Keeps-fallocate env st path mode offset len fi).at s h
  take_turn-stable st (mkdir path mode) s free h =
      (KeepsNames.Keeps-mkdir_handler env st path mode).at s h
  take_turn-stable st (unlink path) s free h = (KeepsNames.Keeps-unlink_handler env st path).at s h
  take_turn-stable st (rmdir path) s free h = (KeepsNames.Keeps-rmdir_handler env st path).at s h
  take_turn-stable st (symlink target path) s free h =
      (KeepsNames.Keeps-symlink_handler env st target path).at s h
  take_turn-stable st (rename old new) s free h =
      (KeepsNames.Keeps-rename_handler env st old new).at s h
  take_turn-stable st (link old new) s free h =
      (KeepsNames.Keeps-link_handler env st old new).at s h
  take_turn-stable st (access path mode) s free h =
      (KeepsNames.Keeps-access_handler env st path mode).at s h
  take_turn-stable st (read path size offset fi) s free h =
      (Keeps-unreliable_read env st path size offset fi).at s h
  take_turn-stable st (write path buf size offset fi) s free h =
      (Keeps-unreliable_write env st (free refl) path buf size offset fi).at s h
  take_turn-stable st (flush path fi) s free h = (Keeps-unreliable_flush env st path fi).at s h
  take_turn-stable st (release path fi) s free h = (Keeps-unreliable_release env st path fi).at s h
  take_turn-stable st watchdog s free h = (Keeps-pop_one env st).at s h

  -- What can happen to a started client. Where the kernel opens a descriptor for an open or a create,
  -- the table does not hold it at that time: an open has done its delayed writebacks before, which
  -- may have closed the descriptor. `init`, `destroy`, `opendir` and `releasedir` are left out.
  pub data Reach (conf : UnreliablefsConfig) : Process → Type 0 where
    start : Reach conf (started conf)
    turn : {s : Process} → Reach conf s → (t : Turn) → Reach conf (take_turn t s)
    open_file :
        {s : Process}
        → Reach conf s
        → (path : Bytes) (fi : FuseFileInfo)
        → IsNew (settle_first env path s).1 (unreliable_open env path fi s).1.history
        → Reach conf (unreliable_open env path fi s).1
    create :
        {s : Process}
        → Reach conf s
        → (path : Bytes) (mode : ℤ) (fi : FuseFileInfo)
        → IsNew s (unreliable_create env path mode fi s).1.history
        → Reach conf (unreliable_create env path mode fi s).1

  -- In every state that the client reaches by any of the requests, with any injections, delayed
  -- writebacks and answers of server and kernel, the cache manager's two maps agree: each path is
  -- counted as often as descriptors are registered under it. Each handler is one step. Where the
  -- kernel opens a descriptor for an open or a create, it is trusted to be one that is not
  -- registered then: for an open after the delayed writebacks of the file, for a create before it.
  pub Reach-CacheOk : (conf : UnreliablefsConfig) (s : Process) → Reach conf s → CacheOk s
  Reach-CacheOk conf _ start = IsConsistent-empty
  Reach-CacheOk conf _ (turn {s} r t) =
      take_turn-stable CacheOk-IsStable t s (λ _. CacheOk-IsQueueFree) (Reach-CacheOk conf s r)
  Reach-CacheOk conf _ (open_file {s} r path fi new) =
      (unreliable_open-OpensBehind env path fi).at s (Reach-CacheOk conf s r) new
  Reach-CacheOk conf _ (create {s} r path mode fi new) =
      (unreliable_create-OpensOk env path mode fi).at s (Reach-CacheOk conf s r) new
