-- ===== src/Server/Commit.antt =====
-- Writeback of wowRPC/WowRPCServer.H: when the file of a client is replaced, and by what.
use wow_so_distributed.Base.{ℕ, ◌+◌, ℤ, pos, int32, true, [], ◌∷◌, Bytes, ◌≡◌, false}
use wow_so_distributed.Host.{Call, Reply, History}
use wow_so_distributed.Exec.{Exit, returned, terminated}
use wow_so_distributed.Client.{RpcResponse}
use wow_so_distributed.Server.{WowFsServiceImpl}
use wow_so_distributed.Server.Uploads.{upload_failed}
use wow_so_distributed.Server.Uploads.Upheld.{final, tmp}

-- How often rename was called.
abbrev pub renames : History → ℕ
renames [] = 0
renames ((Call.rename old new, r) ∷ h) = 1 + renames h
renames (_ ∷ h) = renames h

-- The ways in which Writeback of the file at `path` ends, with `n` renames before it.
module _ (service : WowFsServiceImpl) (path : Bytes) (n : ℕ) where
  pub data IsCommit : Exit RpcResponse × History → Type 0 where
    committed :
        (count : ℤ) (r : Reply) (h : History)
        → service.with_crash_on_write ≡ false
        → renames h ≡ n
        → IsCommit (
          returned (record { ret = int32 count; server_errno = pos 0 }),
          (Call.rename (tmp service path) (final service path), r) ∷ h,
        )
    refused :
        (errno : ℕ) (h : History) → renames h ≡ n → IsCommit (returned (upload_failed errno), h)
    crashed :
        (h : History)
        → service.with_crash_on_write ≡ true
        → renames h ≡ n
        → IsCommit (terminated, h)
