-- ===== src/Machine/Stable.antt =====
-- Predicates on the client process that every step but registering an opened file leaves true.
use wow_so_distributed.Base.{
  ℕ, ℤ, List, ◌≡◌, none, arith, int_eq, eq_ℤ_iff, inl, inr, true, Option-cases,
}
use wow_so_distributed.Base.Dict
use wow_so_distributed.Machine.{Process, WritebackOp}
use wow_so_distributed.Machine.Ambient.{IsAmbient}
use wow_so_distributed.LocalReorder.{WriteOp, fisher_yates_shuffle}
use wow_so_distributed.Cache.{FileMeta, register_file_dirty, register_file_close}
use wow_so_distributed.Cache.Consistent.{
  IsConsistent, register_file_dirty-IsConsistent, register_file_close-IsConsistent,
}

pub record IsStable (P : Process → Type 0) : Type 0 where
  pub ambient : IsAmbient P
  pub dirty : (s : Process) (fd : ℤ) → P s → P (record s { cmgr = register_file_dirty fd s.cmgr })
  pub closed : (s : Process) (fd : ℤ) → P s → P (record s { cmgr = register_file_close fd s.cmgr })
  pub shuffled :
      (s : Process) (draw : ℕ → ℕ)
      → P s
      → P (record s { write_queue = fisher_yates_shuffle draw s.write_queue })
  pub pending : (s : Process) (ops : List WritebackOp) → P s → P (record s { pending_ops = ops })

-- A predicate that does not look at the queue of recorded writes.
pub record IsQueueFree (P : Process → Type 0) : Type 0 where
  pub queue : (s : Process) (q : List WriteOp) → P s → P (record s { write_queue = q })

-- The cache manager's table is consistent.
abbrev pub CacheOk : Process → Type 0
CacheOk s = IsConsistent s.cmgr

-- The cache manager does not know the descriptor.
abbrev pub IsUnknown : ℤ → Process → Type 0
IsUnknown fd s = Dict.get fd s.cmgr.fd_to_meta ≡ none

pub CacheOk-IsStable : IsStable CacheOk
CacheOk-IsStable = record {
  ambient = record { history = λ s h v. v; config = λ s c v. v };
  dirty = λ s fd v. register_file_dirty-IsConsistent fd s.cmgr v;
  closed = λ s fd v. register_file_close-IsConsistent fd s.cmgr v;
  shuffled = λ s draw v. v;
  pending = λ s ops v. v;
}

pub CacheOk-IsQueueFree : IsQueueFree CacheOk
CacheOk-IsQueueFree = record { queue = λ s q v. v }

module _ (fd : ℤ) where
  IsUnknown-dirty :
      (s : Process) (other : ℤ)
      → IsUnknown fd s
      → IsUnknown fd (record s { cmgr = register_file_dirty other s.cmgr })
  unfolding register_file_dirty
  IsUnknown-dirty s other v = elim (Option-cases (Dict.get other s.cmgr.fd_to_meta)) [
    | inl missing ↦ rw (missing, register_file_dirty) v
    | inr (meta, found) ↦
        let meta' : FileMeta = record meta { is_dirty = true } in
        ground (arith, found, eq_ℤ_iff other fd, Dict.get-put other fd meta' s.cmgr.fd_to_meta)
  ]

  IsUnknown-closed :
      (s : Process) (other : ℤ)
      → IsUnknown fd s
      → IsUnknown fd (record s { cmgr = register_file_close other s.cmgr })
  unfolding register_file_close
  IsUnknown-closed s other v = ground (arith, Dict.get-remove other fd s.cmgr.fd_to_meta)

  pub IsUnknown-IsStable : IsStable (IsUnknown fd)
  IsUnknown-IsStable = record {
    ambient = record { history = λ s h v. v; config = λ s c v. v };
    dirty = IsUnknown-dirty;
    closed = IsUnknown-closed;
    shuffled = λ s draw v. v;
    pending = λ s ops v. v;
  }
