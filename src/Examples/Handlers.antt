-- ===== src/Examples/Handlers.antt =====
-- The theorems applied to concrete input: the life of a client and single handlers.
use wow_so_distributed.Base.{
  eq_bytes, pos, neg, true, false, none, List, [], ◌∷◌, ◌++◌, codes, ◌≡◌, refl, keep, int_eq,
  bytes_eq,
}
use mathlib.Core.List.{Perm}
use wow_so_distributed.Base.Dict
use wow_so_distributed.Host.{Reply, Call}
use wow_so_distributed.Exec.{returned, terminated}
use wow_so_distributed.Machine.{Process}
use wow_so_distributed.Machine.Stable.{CacheOk}
use wow_so_distributed.Manager.{should_fetch}
use wow_so_distributed.Manager.Source.{should_fetch_chooses, specified_info, after_rpc, local_reply}
use wow_so_distributed.Inject.FuseOps.{op_mkdir, op_rename}
use wow_so_distributed.Inject.Draws.{error_inject_off}
use wow_so_distributed.Writeback.{is_for}
use wow_so_distributed.Writeback.Order as Order
use wow_so_distributed.Inject.{error_inject}
use wow_so_distributed.Ops.Opens.{settle_first}
use wow_so_distributed.Ops.Session as Session
use wow_so_distributed.Ops.ServerFirst as ServerFirst
use wow_so_distributed.Ops.Open.{unreliable_open}
use wow_so_distributed.Ops.Queue as Queue
use wow_so_distributed.Examples.{reply, usual, env_of, quiet, refuse, plain_conf, plain, a_file, fi}

-- An open, a mkdir and a turn of the watchdog.
abbrev opened : Process
opened = (unreliable_open quiet a_file fi plain).1

opened_fresh : Dict.get (pos 5) plain.cmgr.fd_to_meta ≡ none
unfolding Dict.get
opened_fresh = refl

Reach-CacheOk_example : CacheOk opened
unfolding Dict.get settle_first error_inject eq_bytes
Reach-CacheOk_example =
    Session.Reach-CacheOk quiet plain_conf opened
      (Session.open_file Session.start a_file fi (λ fd e. refl))

-- Two files with delayed operations, and an operation on one of them.
abbrev requests : List Order.Request
requests =
    Order.add a_file fi false
    ∷ Order.add (codes "/b") fi true
    ∷ Order.add a_file fi true
    ∷ Order.watchdog
    ∷ []

writebacks_in_order_example :
    keep (is_for a_file) (
      (Order.serve_all requests Order.start).applied
      ++ (Order.serve_all requests Order.start).pending)
    ≡ keep (is_for a_file) (Order.added requests)
writebacks_in_order_example = Order.writebacks_in_order requests a_file

file_op_settles_example :
    (keep
        (is_for a_file)
        (Order.serve (Order.file_op a_file) (Order.serve_all requests Order.start)).pending
      ≡ [])
    × (keep
          (is_for a_file)
          (Order.serve (Order.file_op a_file) (Order.serve_all requests Order.start)).applied
        ≡ keep (is_for a_file) (Order.added requests))
file_op_settles_example = Order.file_op_settles requests a_file

shut_down_applies_all_example :
    keep (is_for a_file) (Order.shut_down (Order.serve_all requests Order.start)).applied
    ≡ keep (is_for a_file) (Order.added requests)
shut_down_applies_all_example = Order.shut_down_applies_all requests a_file

should_fetch_chooses_example : should_fetch quiet a_file plain ≡ (
  returned (specified_info quiet a_file plain),
  record (after_rpc quiet a_file plain) {
    history =
        (Call.stat a_file, local_reply quiet a_file plain) ∷ (after_rpc quiet a_file plain).history;
  },
)
should_fetch_chooses_example = should_fetch_chooses quiet a_file plain

server_error_stops_example :
    ServerFirst.handle (env_of refuse) (ServerFirst.mkdir a_file (pos 511)) plain ≡ (
      returned (neg (pos 2)),
      ServerFirst.after_request (env_of refuse) (ServerFirst.mkdir a_file (pos 511)) plain,
    )
unfolding eq_bytes
server_error_stops_example =
    ServerFirst.server_error_stops (env_of refuse) (ServerFirst.mkdir a_file (pos 511)) plain plain
      (error_inject_off (env_of refuse) a_file op_mkdir plain refl refl) refl

-- A flush with one recorded write, which stays in the queue.
abbrev recorded : Process
recorded = record plain {
  write_queue =
      record { path = a_file; buf = codes "hello"; size = 5; offset = pos 0; fi = fi } ∷ [];
}

serve_request-perm_example :
    Perm
      (Queue.serve_request quiet (Queue.turn (Session.flush a_file fi)) recorded).write_queue
      recorded.write_queue
serve_request-perm_example =
    Queue.serve_request-perm quiet (Queue.turn (Session.flush a_file fi)) recorded refl

-- The renamed file is not in the cache, so that the local rename throws.
abbrev uncached : Call → Reply
uncached (Call.fs_rename old new) = reply (pos 0) 2 false
uncached c = usual c

server_success_follows_example :
    ServerFirst.handle (env_of uncached) (ServerFirst.rename a_file (codes "/b")) plain ≡ (
      terminated,
      record (ServerFirst.after_request
          (env_of uncached)
          (ServerFirst.rename a_file (codes "/b"))
          plain) {
            history =
                (Call.fs_rename a_file (codes "/b"), reply (pos 0) 2 false)
                ∷ (ServerFirst.after_request
                    (env_of uncached)
                    (ServerFirst.rename a_file (codes "/b"))
                    plain).history;
          },
    )
unfolding eq_bytes
server_success_follows_example =
    ServerFirst.server_success_follows (env_of uncached) (ServerFirst.rename a_file (codes "/b"))
      plain plain (error_inject_off (env_of uncached) a_file op_rename plain refl refl) refl
