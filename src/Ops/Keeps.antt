-- ===== src/Ops/Keeps.antt =====
-- The handlers of wowFS/unreliablefs/unreliablefs_ops.c, but for open and create, keep every
-- stable predicate.
use wow_so_distributed.Base.{ℕ, ℤ, Bool, Option, none, some, List, [], ◌∷◌, Bytes, eq_bytes}
use wow_so_distributed.Host.{Env}
use wow_so_distributed.Exec.{modify}
use wow_so_distributed.Exec.Keeps.{
  Keeps, Keeps-bind, Keeps-if, Keeps-pure, Keeps-gets, Keeps-terminate,
}
use wow_so_distributed.Machine.{Process, WritebackOp, Kind, close, flush, M}
use wow_so_distributed.Machine.Ambient.{IsAmbient, ambient_rules}
use wow_so_distributed.Machine.Stable.{IsStable, IsQueueFree}
use wow_so_distributed.LocalReorder.{FuseFileInfo, WriteOp, wow_kill_phrase}
use wow_so_distributed.Client.Keeps.{client_rules}
use wow_so_distributed.Manager.Keeps.{manager_rules}
use wow_so_distributed.Inject.Keeps.{Keeps-error_inject}
use wow_so_distributed.Inject.FuseOps.{FuseOp}
use wow_so_distributed.Ops.Prologue.{guarded, mark_dirty, mark_closed}
use wow_so_distributed.Ops.Io.{
  open_or_fh, close_if_opened, mark_or_close, wow_write, record_pending, unreliable_read,
  unreliable_write,
}
use wow_so_distributed.Ops.Close.{
  unreliable_release_impl, apply_kind, apply, add_new_writeback, on_file_op, unreliable_release,
  write_all, flush_writeback, close_dup, finish_flush, shuffle_queue, unreliable_flush, pending,
  set_pending, pop_one,
}
use wow_so_distributed.Writeback
use wow_so_distributed.Writeback.{is_for}

module _ (env : Env) {P : Process → Type 0} (amb : IsAmbient P) where
  pub Keeps-guarded :
      {A : Type 0} (path : Bytes) (op : FuseOp) (early : ℤ → A) (body : M A)
      → Keeps P body
      → Keeps P (guarded env path op early body)
  unfolding guarded
  Keeps-guarded path op early body h = search (ambient_rules, Keeps-error_inject)

module _ {P : Process → Type 0} (st : IsStable P) where
  pub Keeps-dirty : (fd : ℤ) → Keeps P (mark_dirty fd)
  unfolding mark_dirty
  Keeps-dirty fd = record { at = λ s h. st.dirty s fd h }

  pub Keeps-closed : (fd : ℤ) → Keeps P (mark_closed fd)
  unfolding mark_closed
  Keeps-closed fd = record { at = λ s h. st.closed s fd h }

  pub IsStable-ambient : IsAmbient P
  IsStable-ambient = st.ambient

pub ruleset stable_rules = (
  ambient_rules, client_rules, manager_rules, Keeps-error_inject, Keeps-dirty, Keeps-closed,
  IsStable-ambient,
)

module _ (env : Env) {P : Process → Type 0} (st : IsStable P) where
  Keeps-open_or_fh :
      (path : Bytes) (flags : ℤ) (fi : Option FuseFileInfo) → Keeps P (open_or_fh env path flags fi)
  unfolding open_or_fh
  Keeps-open_or_fh path flags none = search stable_rules
  Keeps-open_or_fh path flags (some fi) = search stable_rules

  Keeps-mark_or_close : (fi : Option FuseFileInfo) (fd : ℤ) → Keeps P (mark_or_close env fi fd)
  unfolding mark_or_close
  Keeps-mark_or_close none fd = search stable_rules
  Keeps-mark_or_close (some fi) fd = Keeps-dirty st fd

  pub Keeps-wow_write :
      (path buf : Bytes) (size : ℕ) (offset : ℤ) (fi : Option FuseFileInfo)
      → Keeps P (wow_write env path buf size offset fi)
  unfolding wow_write
  Keeps-wow_write path buf size offset fi =
      search (stable_rules, Keeps-open_or_fh, Keeps-mark_or_close) depth 12

  pub Keeps-release_impl :
      (path : Bytes) (fi : Option FuseFileInfo) → Keeps P (unreliable_release_impl env path fi)
  unfolding unreliable_release_impl
  Keeps-release_impl path none = search stable_rules
  Keeps-release_impl path (some fi) = search stable_rules depth 12

  Keeps-apply_kind : (kind : Kind) (op : WritebackOp) → Keeps P (apply_kind env kind op)
  unfolding apply_kind
  Keeps-apply_kind close op = search (stable_rules, Keeps-release_impl)
  Keeps-apply_kind flush op = search stable_rules

  Keeps-apply : (op : WritebackOp) → Keeps P (apply env op)
  unfolding apply
  Keeps-apply op = Keeps-apply_kind op.kind op

  Keeps-apply_each :
      (p : WritebackOp → Bool) (ops : List WritebackOp)
      → Keeps P (Writeback.apply_each pending set_pending (apply env) p ops)
  unfolding Writeback.apply_each
  Keeps-apply_each p [] = search stable_rules
  Keeps-apply_each p (op ∷ rest) =
      Keeps-bind _ _ (Keeps-if (p op) _ _ (Keeps-apply op) (Keeps-pure tt))
        (λ _. Keeps-apply_each p rest)

  pub Keeps-on_file_op : (path : Bytes) → Keeps P (on_file_op env path)
  unfolding on_file_op
  Keeps-on_file_op path = Keeps-bind _ _ (Keeps-gets pending) λ ops.
      Keeps-bind _ _ (Keeps-apply_each (is_for path) ops)
        (λ _. record { at = λ s h. st.pending s _ h })

  Keeps-add_new_writeback :
      (path : Bytes) (fi : FuseFileInfo) (is_close : Bool)
      → Keeps P (add_new_writeback env path fi is_close)
  unfolding add_new_writeback
  Keeps-add_new_writeback path fi is_close = record { at = λ s h. st.pending s _ h }

  Keeps-write_all : (ops : List WriteOp) → Keeps P (write_all env ops)
  unfolding write_all
  Keeps-write_all [] = search stable_rules
  Keeps-write_all (op ∷ rest) = Keeps-if (eq_bytes op.buf wow_kill_phrase) _ _ Keeps-terminate (
      Keeps-bind _ _ (Keeps-wow_write op.path op.buf op.size op.offset (some op.fi))
        (λ _. Keeps-write_all rest))

  Keeps-flush_writeback :
      (delay : Bool) (path : Bytes) (fi : FuseFileInfo)
      → Keeps P (flush_writeback env delay path fi)
  unfolding flush_writeback
  Keeps-flush_writeback delay path fi = search (stable_rules, Keeps-add_new_writeback) depth 8

  Keeps-close_dup : (fi : FuseFileInfo) → Keeps P (close_dup env fi)
  unfolding close_dup
  Keeps-close_dup fi = search stable_rules

  Keeps-finish_flush :
      (delay : Bool) (path : Bytes) (fi : FuseFileInfo) → Keeps P (finish_flush env delay path fi)
  unfolding finish_flush
  Keeps-finish_flush delay path fi =
      search (stable_rules, Keeps-write_all, Keeps-flush_writeback, Keeps-close_dup) depth 8

  Keeps-shuffle : Keeps P (modify (shuffle_queue env))
  unfolding shuffle_queue
  Keeps-shuffle = record { at = λ s h. st.shuffled s _ h }

  pub Keeps-unreliable_flush :
      (path : Bytes) (fi : FuseFileInfo) → Keeps P (unreliable_flush env path fi)
  unfolding unreliable_flush
  Keeps-unreliable_flush path fi = search (stable_rules, Keeps-finish_flush, Keeps-shuffle) depth 12

  pub Keeps-unreliable_release :
      (path : Bytes) (fi : FuseFileInfo) → Keeps P (unreliable_release env path fi)
  unfolding unreliable_release
  Keeps-unreliable_release path fi =
      search (stable_rules, Keeps-release_impl, Keeps-add_new_writeback) depth 12

  Keeps-close_if_opened : (fi : Option FuseFileInfo) (fd : ℤ) → Keeps P (close_if_opened env fi fd)
  unfolding close_if_opened
  Keeps-close_if_opened none fd = search stable_rules
  Keeps-close_if_opened (some fi) fd = search stable_rules

  pub Keeps-unreliable_read :
      (path : Bytes) (size : ℕ) (offset : ℤ) (fi : Option FuseFileInfo)
      → Keeps P (unreliable_read env path size offset fi)
  unfolding unreliable_read
  Keeps-unreliable_read path size offset fi =
      search (stable_rules, Keeps-open_or_fh, Keeps-close_if_opened) depth 14

  Keeps-pop_front :
      (ops : List WritebackOp) → Keeps P (Writeback.pop_front pending set_pending (apply env) ops)
  unfolding Writeback.pop_front
  Keeps-pop_front [] = search stable_rules
  Keeps-pop_front (op ∷ rest) = record { at = λ s h. (Keeps-apply op).at _ (st.pending s rest h) }

  pub Keeps-pop_one : Keeps P (pop_one env)
  unfolding pop_one
  Keeps-pop_one = Keeps-bind _ _ (Keeps-gets pending) Keeps-pop_front

module _ (env : Env) {P : Process → Type 0} (st : IsStable P) (free : IsQueueFree P) where
  Keeps-record_pending :
      (path buf : Bytes) (size : ℕ) (offset : ℤ) (fi : Option FuseFileInfo)
      → Keeps P (record_pending env path buf size offset fi)
  unfolding record_pending
  Keeps-record_pending path buf size offset none = search stable_rules
  Keeps-record_pending path buf size offset (some fi) = record { at = λ s h. free.queue s _ h }

  pub Keeps-unreliable_write :
      (path buf : Bytes) (size : ℕ) (offset : ℤ) (fi : Option FuseFileInfo)
      → Keeps P (unreliable_write env path buf size offset fi)
  unfolding unreliable_write
  Keeps-unreliable_write path buf size offset fi =
      search (stable_rules, Keeps-wow_write, Keeps-record_pending) depth 12
