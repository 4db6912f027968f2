-- ===== src/Writeback/Order.antt =====
-- The delayed writebacks of wowFS/unreliablefs/WowWritebackReorderManager.H: every operation is
-- applied once, and the operations on one file in the order in which they were added.
use wow_so_distributed.Base.{
  Bool, true, not, List, [], ◌∷◌, ◌++◌, Bytes, keep, append-nil, append_assoc, ◌≡◌, refl, sym, ap,
  ◌∙◌, arith, Bool-cases, inl, inr,
}
use wow_so_distributed.Exec.{Exec, returned, modify}
use wow_so_distributed.Machine.{WritebackOp}
use wow_so_distributed.LocalReorder.{FuseFileInfo}
use wow_so_distributed.Writeback.Lines.{keep-append, keep-true, keep_same, keep_none, keep_split}
use wow_so_distributed.Writeback.{
  is_for, new_op, add_new_writeback, apply_each, on_file_op, pop_front, pop_one, destroy,
}

-- The manager over a state that keeps the applied operations, oldest first.
pub record Tracked : Type 0 where
  pub pending : List WritebackOp
  pub applied : List WritebackOp

abbrev pub set_pending : List WritebackOp → Tracked → Tracked
set_pending ops s = record s { pending = ops }

abbrev pub track : WritebackOp → Exec Tracked (Unit {0})
track op = modify (λ s. record s { applied = s.applied ++ op ∷ [] })

abbrev pub pending_of : Tracked → List WritebackOp
pending_of s = s.pending

-- What the handlers and the watchdog ask of the manager.
pub data Request : Type 0 where
  add : Bytes → FuseFileInfo → Bool → Request
  file_op : Bytes → Request
  watchdog : Request

unfoldable pub serve : Request → Tracked → Tracked
unfolding add_new_writeback on_file_op pop_one
serve (add path fi is_close) s =
    (add_new_writeback pending_of set_pending track path fi is_close s).1
serve (file_op path) s = (on_file_op pending_of set_pending track path s).1
serve watchdog s = (pop_one pending_of set_pending track s).1

unfoldable pub serve_all : List Request → Tracked → Tracked
serve_all [] s = s
serve_all (r ∷ rs) s = serve_all rs (serve r s)

abbrev pub shut_down : Tracked → Tracked
shut_down s = (destroy pending_of set_pending track s).1

-- The operations that the requests add, in order.
abbrev pub added : List Request → List WritebackOp
added [] = []
added (add path fi is_close ∷ rs) = new_op path fi is_close ∷ added rs
added (file_op path ∷ rs) = added rs
added (watchdog ∷ rs) = added rs

abbrev pub start : Tracked
start = record { pending = []; applied = [] }

apply_each-track :
    (p : WritebackOp → Bool) (ops : List WritebackOp) (s : Tracked)
    → (apply_each pending_of set_pending track p ops s).1
      ≡ record s { applied = s.applied ++ keep p ops }
unfolding apply_each
apply_each-track p [] s = rw append-nil
apply_each-track p (op ∷ rest) s = elim (Bool-cases (p op)) [
  | inl hit ↦
      rw hit
        (apply_each-track p rest (record s { applied = s.applied ++ op ∷ [] }) ∙ rw append_assoc)
  | inr miss ↦ rw miss (apply_each-track p rest s)
]

apply_each-returned :
    (p : WritebackOp → Bool) (ops : List WritebackOp) (s : Tracked)
    → (apply_each pending_of set_pending track p ops s).0 ≡ returned tt
unfolding apply_each
apply_each-returned p [] s = refl
apply_each-returned p (op ∷ rest) s = elim (Bool-cases (p op)) [
  | inl hit ↦ rw hit (apply_each-returned p rest (record s { applied = s.applied ++ op ∷ [] }))
  | inr miss ↦ rw miss (apply_each-returned p rest s)
]

serve-file_op :
    (path : Bytes) (s : Tracked)
    → serve (file_op path) s ≡ record {
      pending = keep (λ op. not (is_for path op)) s.pending;
      applied = s.applied ++ keep (is_for path) s.pending;
    }
unfolding serve
serve-file_op path s = ground (
  arith,
  apply_each-returned (is_for path) s.pending s,
  apply_each-track (is_for path) s.pending s,
)

-- The history of one file: what was applied and then what is pending.
abbrev pub line_of : Bytes → Tracked → List WritebackOp
line_of path s = keep (is_for path) (s.applied ++ s.pending)

line_of-add :
    (path other : Bytes) (fi : FuseFileInfo) (is_close : Bool) (s : Tracked)
    → line_of path (serve (add other fi is_close) s)
      ≡ line_of path s ++ keep (is_for path) (new_op other fi is_close ∷ [])
unfolding serve
line_of-add path other fi is_close s = simp (keep-append, append_assoc)

line_of-popped :
    (path : Bytes) (ops applied : List WritebackOp)
    → line_of path
        (pop_front pending_of set_pending track ops (record { pending = ops; applied = applied })).1
      ≡ keep (is_for path) (applied ++ ops)
unfolding pop_front
line_of-popped path [] applied = refl
line_of-popped path (op ∷ rest) applied = rw append_assoc

line_of-watchdog :
    (path : Bytes) (s : Tracked) → line_of path (serve watchdog s) ≡ line_of path s ++ []
unfolding serve
line_of-watchdog path s = rw append-nil (line_of-popped path s.pending s.applied)

line_of-serve :
    (path : Bytes) (r : Request) (s : Tracked)
    → line_of path (serve r s) ≡ line_of path s ++ keep (is_for path) (added (r ∷ []))
line_of-serve path (file_op other) s =
    rw serve-file_op (simp (keep-append, append_assoc, append-nil, keep_split path other) refl)
line_of-serve path (add other fi is_close) s = line_of-add path other fi is_close s
line_of-serve path watchdog s = line_of-watchdog path s

line_of-serve_all :
    (path : Bytes) (rs : List Request) (s : Tracked)
    → line_of path (serve_all rs s) ≡ line_of path s ++ keep (is_for path) (added rs)
unfolding serve_all
line_of-serve_all path [] s = rw append-nil
line_of-serve_all path (r ∷ rs) s =
    rw (line_of-serve_all path rs (serve r s), line_of-serve path r s)
      (append_assoc (line_of path s) _ _ ∙ ap (λ l. line_of path s ++ l) (joined r))
  where
    joined :
        (r : Request)
        → keep (is_for path) (added (r ∷ [])) ++ keep (is_for path) (added rs)
          ≡ keep (is_for path) (added (r ∷ rs))
    joined (add other fi is_close) =
        sym (keep-append (is_for path) (new_op other fi is_close ∷ []) (added rs))
    joined (file_op other) = refl
    joined watchdog = refl

-- Whatever the handlers and the watchdog ask, for each file the operations applied so far,
-- followed by those that are pending, are exactly those that were added, each once and in the
-- order in which they were added.
pub writebacks_in_order :
    (rs : List Request) (path : Bytes)
    → keep (is_for path) ((serve_all rs start).applied ++ (serve_all rs start).pending)
      ≡ keep (is_for path) (added rs)
writebacks_in_order rs path = line_of-serve_all path rs start

-- After onFileOp on a file, with any requests before it, no operation on that file is pending,
-- and all that were added for it have been applied, in order.
pub file_op_settles :
    (rs : List Request) (path : Bytes)
    → (keep (is_for path) (serve (file_op path) (serve_all rs start)).pending ≡ [])
      × (keep (is_for path) (serve (file_op path) (serve_all rs start)).applied
          ≡ keep (is_for path) (added rs))
file_op_settles rs path =
    let s = serve_all rs start in
    (
      rw serve-file_op (keep_none path s.pending),
      rw serve-file_op (
          rw (keep-append, keep_same)
            (sym (keep-append (is_for path) s.applied s.pending) ∙ writebacks_in_order rs path)),
    )

-- When the manager is destroyed after any requests, each file's operations have been applied,
-- each once and in the order in which they were added.
pub shut_down_applies_all :
    (rs : List Request) (path : Bytes)
    → keep (is_for path) (shut_down (serve_all rs start)).applied ≡ keep (is_for path) (added rs)
unfolding destroy
shut_down_applies_all rs path =
    let s = serve_all rs start in
    rw (apply_each-track (λ _. true) s.pending s, keep-true) (writebacks_in_order rs path)
