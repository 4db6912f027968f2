-- ===== src/Ops/ServerFirst.antt =====
-- The handlers of wowFS/unreliablefs/unreliablefs_ops.c that change names on the server and then
-- locally: what happens where the server does its part, and where it does not.
use wow_so_distributed.Base.{
  negsuc, is_negative, Option, some, none, if◌then◌else◌, Bool-cases, inl, inr, ℤ, pos, neg, refl,
  is_minus_one, true, false, Bytes, ◌∷◌, ◌≡◌,
}
use wow_so_distributed.Host.{Call, Request, Reply, Env}
use wow_so_distributed.Exec.{Exit, returned, terminated}
use wow_so_distributed.Machine.{Process, M}
use wow_so_distributed.Client.{response_of}
use wow_so_distributed.Manager.{remove_mount_prefix}
use wow_so_distributed.Inject.{error_inject}
use wow_so_distributed.Inject.FuseOps.{
  FuseOp, op_mkdir, op_unlink, op_rmdir, op_rename, op_link, op_access,
}
use wow_so_distributed.Ops.Prologue.{guarded}
use wow_so_distributed.Ops.Directory.{
  unreliable_mkdir, unreliable_unlink, unreliable_rmdir, unreliable_rename, unreliable_link,
  unreliable_access,
}

-- The handlers that end with the server's error.
pub data NameOp : Type 0 where
  mkdir : Bytes → ℤ → NameOp
  unlink rmdir : Bytes → NameOp
  rename link : Bytes → Bytes → NameOp
  access : Bytes → ℤ → NameOp

abbrev pub fuse_op : NameOp → FuseOp
fuse_op (mkdir _ _) = op_mkdir
fuse_op (unlink _) = op_unlink
fuse_op (rmdir _) = op_rmdir
fuse_op (rename _ _) = op_rename
fuse_op (link _ _) = op_link
fuse_op (access _ _) = op_access

-- The path that injections are matched with.
abbrev pub subject : NameOp → Bytes
subject (mkdir path _) = path
subject (unlink path) = path
subject (rmdir path) = path
subject (rename old_path _) = old_path
subject (link old_path _) = old_path
subject (access path _) = path

-- What is asked of the server.
abbrev pub request : NameOp → Request
request (mkdir path mode) = Request.mkdir (remove_mount_prefix path) mode
request (unlink path) = Request.unlink (remove_mount_prefix path)
request (rmdir path) = Request.rmdir (remove_mount_prefix path)
request (rename old new) = Request.rename (remove_mount_prefix old) (remove_mount_prefix new)
request (link old new) = Request.link (remove_mount_prefix old) (remove_mount_prefix new)
request (access path mode) = Request.access (remove_mount_prefix path) mode

module _ (env : Env) where
  abbrev pub handle : NameOp → M ℤ
  handle (mkdir path mode) = unreliable_mkdir env path mode
  handle (unlink path) = unreliable_unlink env path
  handle (rmdir path) = unreliable_rmdir env path
  handle (rename old new) = unreliable_rename env old new
  handle (link old new) = unreliable_link env old new
  handle (access path mode) = unreliable_access env path mode

  -- The server's reply to the request, made in state `s`.
  abbrev pub reply_to : NameOp → Process → Reply
  reply_to op s = env.answer s.history (Call.rpc (request op))

  abbrev pub after_request : NameOp → Process → Process
  after_request op s = record s { history = (Call.rpc (request op), reply_to op s) ∷ s.history }

  -- If error_inject gives 0 and the server's answer is -1, mkdir, unlink, rmdir, rename, link and
  -- access return the negated error of the server, and the request is the only call that they make
  -- after error_inject: nothing local is changed.
  pub server_error_stops :
      (op : NameOp) (s t : Process)
      → error_inject env (subject op) (fuse_op op) s ≡ (returned (pos 0), t)
      → is_minus_one (response_of (reply_to op t)).ret ≡ true
      → handle op s
        ≡ (returned (neg (response_of (reply_to op t)).server_errno), after_request op t)
  unfolding unreliable_mkdir unreliable_unlink unreliable_rmdir unreliable_rename unreliable_link
      unreliable_access
  server_error_stops (mkdir path mode) s t h bad = rw (h, guarded) (rw bad)
  server_error_stops (unlink path) s t h bad = rw (h, guarded) (rw bad)
  server_error_stops (rmdir path) s t h bad = rw (h, guarded) (rw bad)
  server_error_stops (rename old new) s t h bad = rw (h, guarded) (rw bad)
  server_error_stops (link old new) s t h bad = rw (h, guarded) (rw bad)
  server_error_stops (access path mode) s t h bad = rw (h, guarded) (rw bad)

  -- The local call that follows where the server has done its part.
  abbrev pub local_call : NameOp → Option Call
  local_call (mkdir path mode) = some (Call.mkdir path mode)
  local_call (unlink path) = some (Call.fs_remove path)
  local_call (rmdir path) = some (Call.rmdir path)
  local_call (rename old new) = some (Call.fs_rename old new)
  local_call (link old new) = some (Call.link old new)
  local_call (access path mode) = none

  -- What a handler makes of the local call's reply: unlink and rename end in an exception that
  -- nothing catches, where the local call throws.
  abbrev pub local_result : NameOp → Reply → Exit ℤ
  local_result (mkdir path mode) r =
      returned (if is_minus_one r.ret then neg (pos r.errno) else pos 0)
  local_result (unlink path) r = if r.ok then returned (pos 0) else terminated
  local_result (rmdir path) r = returned (if is_minus_one r.ret then negsuc 0 else pos 0)
  local_result (rename old new) r = if r.ok then returned (pos 0) else terminated
  local_result (link old new) r = returned (if is_negative r.ret then neg (pos r.errno) else pos 0)
  local_result (access path mode) r = returned (pos 0)

  abbrev pub follow : NameOp → Option Call → Process → Exit ℤ × Process
  follow op none s = (returned (pos 0), s)
  follow op (some c) s =
      let r = env.answer s.history c in
      (local_result op r, record s { history = (c, r) ∷ s.history })

  -- If error_inject gives 0 and the server's answer is not -1, mkdir, unlink, rmdir, rename and
  -- link make exactly one local call, and access makes none and returns 0. If the local call
  -- succeeds the result is 0. If it fails, mkdir and link return its negated error number and rmdir
  -- -1, and unlink and rename, which throw, end the process, after the server has done its part.
  pub server_success_follows :
      (op : NameOp) (s t : Process)
      → error_inject env (subject op) (fuse_op op) s ≡ (returned (pos 0), t)
      → is_minus_one (response_of (reply_to op t)).ret ≡ false
      → handle op s ≡ follow op (local_call op) (after_request op t)
  unfolding unreliable_mkdir unreliable_unlink unreliable_rmdir unreliable_rename unreliable_link
      unreliable_access
  server_success_follows (mkdir path mode) s t h good = rw (h, guarded) (rw good)
  server_success_follows (unlink path) s t h good =
      let r = env.answer (after_request (unlink path) t).history (Call.fs_remove path) in
      elim (Bool-cases r.ok) [
        | inl done ↦ rw (h, guarded) (simp (good, done) refl)
        | inr thrown ↦ rw (h, guarded) (simp (good, thrown) refl)
      ]
  server_success_follows (rmdir path) s t h good = rw (h, guarded) (rw good)
  server_success_follows (rename old new) s t h good =
      let r = env.answer (after_request (rename old new) t).history (Call.fs_rename old new) in
      elim (Bool-cases r.ok) [
        | inl done ↦ rw (h, guarded) (simp (good, done) refl)
        | inr thrown ↦ rw (h, guarded) (simp (good, thrown) refl)
      ]
  server_success_follows (link old new) s t h good = rw (h, guarded) (rw good)
  server_success_follows (access path mode) s t h good = rw (h, guarded) (rw good)
