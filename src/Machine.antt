-- ===== src/Machine.antt =====
-- The state of one client process (wowFS/unreliablefs), and calls to the outside world.
pub mod Ambient
pub mod Stable
use wow_so_distributed.Base.{ℕ, Option, List, ◌∷◌, Bytes}
use wow_so_distributed.Host.{Call, Reply, History, Env}
use wow_so_distributed.Exec.{Exec, returned}
use wow_so_distributed.Cache.{WowCacheManager}
use wow_so_distributed.LocalReorder.{WriteOp, FuseFileInfo}

-- errinj_type of unreliablefs_errinj.h
pub data ErrinjType : Type 0 where
  errinj_errno errinj_kill_caller errinj_noop errinj_slowdown : ErrinjType
  errinj_wow_reorder_local errinj_wow_reorder_server errinj_wow_delay errinj_wow_crash : ErrinjType

-- struct errinj_conf; `none` is a null pointer
pub record ErrinjConf : Type 0 where
  pub op_regexp : Option Bytes
  pub path_regexp : Option Bytes
  pub probability : ℕ
  pub duration : ℕ
  pub kind : ErrinjType

-- struct unreliablefs_config, without the mutex and the fields that only main reads
pub record UnreliablefsConfig : Type 0 where
  pub errors : Option (List ErrinjConf)
  pub config_path : Bytes

-- WritebackOp::Kind
pub data Kind : Type 0 where
  close flush : Kind

-- WritebackOp of WowWritebackReorderManager.H
pub record WritebackOp : Type 0 where
  pub file_path : Bytes
  pub fuse_file_info : FuseFileInfo
  pub kind : Kind

-- The process: what it has called, WowManager's cache manager, the queue of WowLocalWriteReorder,
-- pendingOps_ of WowWritebackReorderManager, and the global `conf`.
pub record Process : Type 0 where
  pub history : History
  pub cmgr : WowCacheManager
  pub write_queue : List WriteOp
  pub pending_ops : List WritebackOp
  pub conf : UnreliablefsConfig

abbrev pub M {ℓ} : Type ℓ → Type ℓ
M A = Exec Process A

unfoldable pub call : Env → Call → M Reply
call env c s =
    let r = env.answer s.history c in (returned r, record s { history = (c, r) ∷ s.history })
