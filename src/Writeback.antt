-- ===== src/Writeback.antt =====
-- wowFS/unreliablefs/WowWritebackReorderManager.H: the list of delayed writebacks. The manager
-- works on whatever state holds its list (`pending`, `set_pending`), and applies an operation by
-- `apply`; its lock makes each method one step.
pub mod Lines
pub mod Order
use wow_so_distributed.Base.{
  ℕ, Bool, true, false, not, List, [], ◌∷◌, ◌++◌, Bytes, eq_bytes, keep, if◌then◌else◌,
}
use wow_so_distributed.Exec.{Exec, pure, gets, modify, ◌>>=◌, ◌>>◌}
use wow_so_distributed.Machine.{WritebackOp, Kind, close, flush}
use wow_so_distributed.LocalReorder.{FuseFileInfo}

-- op.getFilePath() == path
abbrev pub is_for : Bytes → WritebackOp → Bool
is_for path op = eq_bytes op.file_path path

abbrev pub new_op : Bytes → FuseFileInfo → Bool → WritebackOp
new_op path fi is_close = record {
  file_path = path;
  fuse_file_info = fi;
  kind = if is_close then close else flush;
}

module _ {S : Type 0} (pending : S → List WritebackOp) (set_pending : List WritebackOp → S → S)
    (apply : WritebackOp → Exec S (Unit {0})) where
  unfoldable pub add_new_writeback : Bytes → FuseFileInfo → Bool → Exec S (Unit {0})
  add_new_writeback path fi is_close =
      modify (λ s. set_pending (pending s ++ new_op path fi is_close ∷ []) s)

  -- The for_each with a test: the operations of the list that pass are applied in order.
  unfoldable pub apply_each : (WritebackOp → Bool) → List WritebackOp → Exec S (Unit {0})
  apply_each p [] = pure tt
  apply_each p (op ∷ rest) = do (if p op then apply op else pure tt); apply_each p rest

  unfoldable pub on_file_op : Bytes → Exec S (Unit {0})
  unfolding apply_each
  on_file_op path = do
    ops ← gets pending
    apply_each (is_for path) ops
    modify (λ s. set_pending (keep (λ op. not (is_for path op)) (pending s)) s)

  -- The watchdog's step.
  unfoldable pub pop_front : List WritebackOp → Exec S (Unit {0})
  pop_front [] = pure tt
  pop_front (op ∷ rest) = do modify (set_pending rest); apply op

  unfoldable pub pop_one : Exec S (Unit {0})
  unfolding pop_front
  pop_one = do ops ← gets pending; pop_front ops

  -- The destructor, after the watchdog has stopped: the list itself is not used again.
  unfoldable pub destroy : Exec S (Unit {0})
  unfolding apply_each
  destroy = do ops ← gets pending; apply_each (λ _. true) ops
