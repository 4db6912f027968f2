-- ===== src/Ops/Queue.antt =====
-- The queue of recorded writes (wowFS/unreliablefs/WowLocalWriteReorder.H) under the handlers of
-- wowFS/unreliablefs/unreliablefs_ops.c.
use wow_so_distributed.Base.{ℤ, Bool, true, false, Option, none, some, List, Bytes, ◌≡◌, arith}
use mathlib.Core.List.{Perm}
use mathlib.Core.List.Perm
use wow_so_distributed.Host.{Env}
use wow_so_distributed.Exec.Keeps.{Keeps}
use wow_so_distributed.Machine.{Process}
use wow_so_distributed.Machine.Stable.{IsStable}
use wow_so_distributed.Cache.{register_file_open}
use wow_so_distributed.Manager.{StatInfo, StatSelect, remote}
use wow_so_distributed.LocalReorder.{WriteOp, FuseFileInfo}
use wow_so_distributed.LocalReorder.Permutes.{fisher_yates_shuffle-perm}
use wow_so_distributed.Ops.Keeps.{stable_rules, Keeps-guarded, Keeps-on_file_op}
use wow_so_distributed.Ops.Open.{
  open_done, open_local, ensure_remote, fetch_and_open, return_or_open, open_body, unreliable_open,
  unreliable_create,
}
use wow_so_distributed.Ops.Session.{Turn, is_write, take_turn, take_turn-stable}

module _ (env : Env) where
  queue-IsStable : (q : List WriteOp) → IsStable (λ s. Perm s.write_queue q)
  queue-IsStable q = record {
    ambient = record { history = λ s h v. v; config = λ s c v. v };
    dirty = λ s fd v. v;
    closed = λ s fd v. v;
    shuffled = λ s draw v. Perm.trans (fisher_yates_shuffle-perm draw s.write_queue) v;
    pending = λ s ops v. v;
  }

  take_turn-perm :
      (t : Turn) (s : Process)
      → is_write t ≡ false
      → Perm (take_turn env t s).write_queue s.write_queue
  take_turn-perm t s other =
      take_turn-stable env (queue-IsStable s.write_queue) t s (λ e. ground (arith, e, other))
        (Perm.refl s.write_queue)

-- A request of FUSE with open and create, or the watchdog's turn.
pub data Request : Type 0 where
  turn : Turn → Request
  open_file : Bytes → FuseFileInfo → Request
  create : Bytes → ℤ → FuseFileInfo → Request

abbrev pub may_record : Request → Bool
may_record (turn t) = is_write t
may_record _ = false

abbrev pub serve_request : Env → Request → Process → Process
serve_request env (turn t) s = take_turn env t s
serve_request env (open_file path fi) s = (unreliable_open env path fi s).1
serve_request env (create path mode fi) s = (unreliable_create env path mode fi s).1

-- A stable predicate that also the registration of a file leaves true.
module _ (env : Env) {P : Process → Type 0} (st : IsStable P)
    (registered : (s : Process) (fd : ℤ) (path : Bytes)
      → P s
      → P (record s { cmgr = register_file_open fd path s.cmgr }))
    (path : Bytes) where
  Keeps-open_done : (fi : FuseFileInfo) (fd : ℤ) → Keeps P (open_done env path fi fd)
  unfolding open_done
  Keeps-open_done fi fd = record { at = λ s h. registered s fd path h }

  Keeps-open_local : (fi : FuseFileInfo) → Keeps P (open_local env path fi)
  unfolding open_local
  Keeps-open_local fi = search (stable_rules, Keeps-open_done) depth 10

  Keeps-fetch_and_open :
      (fi : FuseFileInfo) (info : StatInfo) (source : StatSelect)
      → Keeps P (fetch_and_open env path fi info source)
  unfolding fetch_and_open
  Keeps-fetch_and_open fi info remote = search (stable_rules, Keeps-open_local) depth 10
  Keeps-fetch_and_open fi info _ = Keeps-open_local fi

  Keeps-ensure_remote :
      (fi : FuseFileInfo) (present : Bool) → Keeps P (ensure_remote env path fi present)
  unfolding ensure_remote
  Keeps-ensure_remote fi true = search stable_rules
  Keeps-ensure_remote fi false = search stable_rules

  Keeps-return_or_open :
      (fi : FuseFileInfo) (info : StatInfo) (created : Option ℤ)
      → Keeps P (return_or_open env path fi info created)
  unfolding return_or_open
  Keeps-return_or_open fi info (some ret) = search stable_rules
  Keeps-return_or_open fi info none = Keeps-fetch_and_open fi info info.source

  Keeps-open_body : (fi : FuseFileInfo) → Keeps P (open_body env path fi)
  unfolding open_body
  Keeps-open_body fi = search (stable_rules, Keeps-ensure_remote, Keeps-return_or_open) depth 10

  Keeps-unreliable_open : (fi : FuseFileInfo) → Keeps P (unreliable_open env path fi)
  unfolding unreliable_open
  Keeps-unreliable_open fi = search (stable_rules, Keeps-on_file_op, Keeps-open_body) depth 12

  Keeps-unreliable_create :
      (mode : ℤ) (fi : FuseFileInfo) → Keeps P (unreliable_create env path mode fi)
  unfolding unreliable_create
  Keeps-unreliable_create mode fi = search (stable_rules, Keeps-guarded, Keeps-open_done) depth 14

-- No turn of the watchdog, and no request other than a write, open and create included, takes a
-- recorded write out of the queue or adds one: after it the queue holds the same writes, in some
-- order. A flush is such a request, so that the writes that it makes stay recorded. The handlers
-- init, destroy, opendir and releasedir are not among the requests.
pub serve_request-perm :
    (env : Env) (r : Request) (s : Process)
    → may_record r ≡ false
    → Perm (serve_request env r s).write_queue s.write_queue
serve_request-perm env (turn t) s other = take_turn-perm env t s other
serve_request-perm env (open_file path fi) s other =
    (Keeps-unreliable_open env (queue-IsStable env s.write_queue) (λ s fd path v. v) path fi).at s
      (Perm.refl s.write_queue)
serve_request-perm env (create path mode fi) s other =
    (Keeps-unreliable_create env (queue-IsStable env s.write_queue) (λ s fd path v. v) path mode
        fi).at
      s (Perm.refl s.write_queue)
