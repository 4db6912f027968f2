-- ===== src/Ops/Fetches.antt =====
-- open of wowFS/unreliablefs/unreliablefs_ops.c where the server has the newer file: what the cached
-- file holds afterwards, where the client's kernel is trusted to do what POSIX says.
use wow_so_distributed.Base.{
  ℕ, ◌/◌, ◌%◌, ◌==◌, ℤ, pos, negsuc, is_minus_one, Bool, true, false, Option, none, some, [], ◌∷◌,
  ◌++◌, Bytes, length, ◌≡◌, refl, ap, ◌∙◌, if◌then◌else◌, int_eq, arith, int32, ◌<◌, ◌≤◌, ◌^◌,
}
use wow_so_distributed.Base.Dict
use wow_so_distributed.Host.{Call, History, Reply, Env}
use wow_so_distributed.Exec.{Exit, returned}
use wow_so_distributed.Machine.{Process, call}
use wow_so_distributed.LocalReorder.{FuseFileInfo}
use wow_so_distributed.Cache.{
  WowCacheManager, get_file_path_from_fd, get_file_meta_from_fd, is_file_dirty, register_file_open,
}
use wow_so_distributed.Cache.Files
use wow_so_distributed.Client
use wow_so_distributed.Client.{RpcResponse}
use wow_so_distributed.Manager.{StatInfo, remote, remove_mount_prefix}
use wow_so_distributed.Manager.Source.{
  asked, after_stats, remote_wins, remote_info, should_fetch_remote,
}
use wow_so_distributed.Inject.{error_inject}
use wow_so_distributed.Inject.FuseOps.{op_open, op_read}
use wow_so_distributed.Ops.Prologue.{fh_of, fd_of}
use wow_so_distributed.Ops.Io.{unreliable_read, open_or_fh, close_if_opened}
use wow_so_distributed.Server.Atomic.{last_open}
use wow_so_distributed.Ops.Opens.{last_ret}
use wow_so_distributed.Ops.Open.{
  open_done, open_local, ensure_remote, fetch_and_open, return_or_open, open_body, unreliable_open,
}

-- The file that the open C stream writes to.
abbrev pub stream_of : History → Option Bytes
stream_of [] = none
stream_of ((Call.fopen path, r) ∷ h) = if r.ok then some path else none
stream_of ((Call.fclose, r) ∷ h) = none
stream_of (_ ∷ h) = stream_of h

-- O_TRUNC, 512, among the flags.
abbrev pub truncates : ℤ → Bool
truncates (pos flags) = flags / 512 % 2 == 1
truncates (negsuc n) = true

-- What the kernel is trusted to do to the cached files.
pub record Caches (contents : History → Bytes → Option Bytes) : Type 0 where
  -- fopen of mode "wb"
  pub fopen_empties :
      (path : Bytes) (r : Reply) (h : History)
      → r.ok ≡ true
      → contents ((Call.fopen path, r) ∷ h) path ≡ some []
  pub fwrite_appends :
      (path text file : Bytes) (r : Reply) (h : History)
      → stream_of h ≡ some path
      → contents h path ≡ some file
      → r.ret ≡ pos (length text)
      → contents ((Call.fwrite text, r) ∷ h) path ≡ some (file ++ text)
  pub fclose_keeps :
      (p : Bytes) (r : Reply) (h : History) → contents ((Call.fclose, r) ∷ h) p ≡ contents h p
  pub create_directories_keeps :
      (p path : Bytes) (r : Reply) (h : History)
      → contents ((Call.create_directories path, r) ∷ h) p ≡ contents h p
  pub open_keeps :
      (p path file : Bytes) (flags : ℤ) (mode : Option ℕ) (r : Reply) (h : History)
      → truncates flags ≡ false
      → contents h p ≡ some file
      → contents ((Call.open_file path flags mode, r) ∷ h) p ≡ some file

-- An open that has succeeded: the descriptor that its last call returned is handed out and is
-- registered, clean, under the path, and the cached file at the path is `text`.
pub record IsOpened (contents : History → Bytes → Option Bytes) (path text : Bytes) (flags : ℤ)
    (x : Exit (ℤ × FuseFileInfo) × Process) : Type 0 where
  pub handed_out :
      x.0 ≡ returned (pos 0, record { fh = fh_of (last_ret x.1.history); flags = flags })
  pub valid : is_minus_one (last_ret x.1.history) ≡ false
  pub opened : last_open x.1.history ≡ some (path, last_ret x.1.history)
  pub named : get_file_path_from_fd (last_ret x.1.history) x.1.cmgr ≡ path
  pub clean : is_file_dirty (last_ret x.1.history) x.1.cmgr ≡ false
  pub holds : contents x.1.history path ≡ some text

register_file_open-fd :
    (fd : ℤ) (path : Bytes) (c : WowCacheManager)
    → (get_file_path_from_fd fd (register_file_open fd path c) ≡ path)
      × (is_file_dirty fd (register_file_open fd path c) ≡ false)
unfolding register_file_open get_file_path_from_fd is_file_dirty get_file_meta_from_fd
register_file_open-fd fd path c =
    let e : Dict.get fd (register_file_open fd path c).fd_to_meta
        ≡ some (record { path = path; is_dirty = false }) =
      Dict.get-put fd fd (record { path = path; is_dirty = false }) c.fd_to_meta
      ∙ rw (Dict.beq_refl fd) refl in
    (
      ap (λ o. elim o [ none ↦ [] | some meta ↦ meta.path ]) e,
      ap (λ o. elim o [ none ↦ false | some meta ↦ meta.is_dirty ]) e,
    )

module _ (contents : History → Bytes → Option Bytes) (env : Env) (kernel : Caches contents)
    (path : Bytes) (absolute : Files.is_absolute path ≡ true)
    (makes : (h : History) (dir : Bytes) → (env.answer h (Call.create_directories dir)).ok ≡ true)
    (streams : (h : History) → (env.answer h (Call.fopen path)).ok ≡ true)
    (puts : (h : History) (text : Bytes)
      → (env.answer h (Call.fwrite text)).ret ≡ pos (length text)) where
  save_to_cache_lem :
      (text : Bytes) (s : Process)
      → let x = Files.save_to_cache env path text s in
        (x.0 ≡ returned true) × (contents x.1.history path ≡ some text) × (x.1.cmgr ≡ s.cmgr)
  unfolding Files.save_to_cache Files.construct_dir_path call
  save_to_cache_lem text s =
      simp (absolute, makes, streams)
        (
          refl,
          kernel.fclose_keeps _ _ _
              ∙ kernel.fwrite_appends path text [] _ _ (rw streams refl)
                  (kernel.fopen_empties path _ _ (streams _)) (puts _ _),
          refl,
        )

  module _ (fi : FuseFileInfo) (keeps : truncates fi.flags ≡ false)
      (opens : (h : History)
        → is_minus_one (env.answer h (Call.open_file path fi.flags none)).ret ≡ false) where
    open_local-IsOpened :
        (text : Bytes) (s : Process)
        → contents s.history path ≡ some text
        → IsOpened contents path text fi.flags (open_local env path fi s)
    unfolding open_local open_done Files.construct_dir_path call
    open_local-IsOpened text s there =
        simp (absolute, makes, opens)
          (record {
            handed_out = refl;
            valid = opens _;
            opened = rw opens refl;
            named = (register_file_open-fd _ path s.cmgr).0;
            clean = (register_file_open-fd _ path s.cmgr).1;
            holds =
                kernel.open_keeps path path text fi.flags none _ _ keeps
                  (kernel.create_directories_keeps path _ _ _ ∙ there);
          })

    fetch_and_open-IsOpened :
        (info : StatInfo) (text : Bytes) (response : RpcResponse) (s : Process)
        → (Client.download_file env (remove_mount_prefix path) info.stat_data.size s).0
          ≡ returned (response, text)
        → is_minus_one response.ret ≡ false
        → IsOpened contents path text fi.flags (fetch_and_open env path fi info remote s)
    unfolding fetch_and_open
    fetch_and_open-IsOpened info text response s got well =
        let s' = (Client.download_file env (remove_mount_prefix path) info.stat_data.size s).1 in
        let (saved, there, same) = save_to_cache_lem text s' in
        simp (got, well, saved)
          (open_local-IsOpened text (Files.save_to_cache env path text s').1 there)

  -- open, without an injection, of a file whose server's modification time wins: when the
  -- download ends without an error, the local calls succeed and the flags have no O_TRUNC, the
  -- open succeeds, and the cached file is what was downloaded.
  pub unreliable_open-IsOpened :
      (fi : FuseFileInfo) (s t : Process) (text : Bytes) (response : RpcResponse)
      → truncates fi.flags ≡ false
      → ((h : History)
          → is_minus_one (env.answer h (Call.open_file path fi.flags none)).ret ≡ false)
      → error_inject env path op_open s ≡ (returned (pos 0), t)
      → remote_wins env path t ≡ true
      → (Client.download_file env
          (remove_mount_prefix path)
          (asked env path t).stat.size
          (after_stats env path t)).0
        ≡ returned (response, text)
      → is_minus_one response.ret ≡ false
      → IsOpened contents path text fi.flags (unreliable_open env path fi s)
  unfolding unreliable_open open_body ensure_remote return_or_open
  unreliable_open-IsOpened fi s t text response keeps opens calm newer got well =
      rw (calm, should_fetch_remote env path t newer)
        (fetch_and_open-IsOpened (record fi { fh = 0 }) keeps opens (remote_info env path t) text
          response (after_stats env path t) got well)

-- What the kernel is trusted to give to a reader of the file that it has just opened, of which the
-- descriptor is an int: from the start, with room for the whole file, it gives all of it.
pub record ReadsOpened (contents : History → Bytes → Option Bytes) (env : Env) : Type 0 where
  pub counts :
      (path text : Bytes) (fd : ℤ) (size : ℕ) (h : History)
      → last_open h ≡ some (path, fd)
      → contents h path ≡ some text
      → length text ≤ size
      → (env.answer h (Call.pread fd size (pos 0))).ret ≡ pos (length text)
  pub gives :
      (path text : Bytes) (fd : ℤ) (size : ℕ) (h : History)
      → last_open h ≡ some (path, fd)
      → contents h path ≡ some text
      → length text ≤ size
      → (env.answer h (Call.pread fd size (pos 0))).bytes ≡ text

-- The opened file, as open leaves it to the caller.
abbrev pub handle_of : ℤ → Process → FuseFileInfo
handle_of flags s = record { fh = fh_of (last_ret s.history); flags = flags }

-- A read from the start of a file that was just opened, with room for the whole file, returns what
-- the file holds.
pub unreliable_read-IsOpened :
    (contents : History → Bytes → Option Bytes) (env : Env)
    → ReadsOpened contents env
    → (path text : Bytes) (flags : ℤ) (size : ℕ) (x : Exit (ℤ × FuseFileInfo) × Process)
    → IsOpened contents path text flags x
    → fd_of (fh_of (last_ret x.1.history)) ≡ last_ret x.1.history
    → error_inject env path op_read x.1 ≡ (returned (pos 0), x.1)
    → length text ≤ size
    → length text < 2 ^ 31
    → (unreliable_read env path size (pos 0) (some (handle_of flags x.1)) x.1).0
      ≡ returned (pos (length text), text)
unfolding unreliable_read open_or_fh close_if_opened call
unreliable_read-IsOpened contents env kernel path text flags size x o same calm room small =
    let fd = last_ret x.1.history in
    let count = kernel.counts path text fd size x.1.history o.opened o.holds room in
    let bytes = kernel.gives path text fd size x.1.history o.opened o.holds room in
    let fits : int32 (pos (length text)) ≡ pos (length text) = ground (arith, small) in
    rw calm (simp (same, o.valid, count, bytes, fits) refl)
