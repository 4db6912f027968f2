-- ===== src/Examples/Handovers.antt =====
-- The theorems about a file that goes from one client to another through the handlers, applied to
-- concrete clients and a server.
use wow_so_distributed.Base.{
  ℤ, pos, negsuc, eq_ℤ, eq_ℤ_iff, Option, none, some, [], ◌∷◌, ◌++◌, Bytes, eq_bytes, eq_bytes_refl,
  is_empty, ◌≡◌, refl, ap, true, false, ◌&&◌, if◌then◌else◌, length, arith, int_eq, bytes_eq,
}
use mathlib.Core.Option
use wow_so_distributed.Host.{Call, Request, Reply, History, Env}
use wow_so_distributed.Server.Atomic.{last_open}
use wow_so_distributed.Ops.Fetches.{Caches, ReadsOpened, IsOpened, stream_of, truncates}
use wow_so_distributed.Exec.{returned}
use wow_so_distributed.Base.Dict
use wow_so_distributed.Cache.{
  register_file_open, register_file_dirty, get_file_path_from_fd, is_file_dirty, validate,
}
use wow_so_distributed.Cache.Files.{read_file, read_sized, is_absolute, save_to_cache}
use wow_so_distributed.Client.{writeback, download_file, write_chunks}
use wow_so_distributed.Manager.{remove_mount_prefix, writeback_to_server, should_fetch, zero_stat}
use wow_so_distributed.Inject.{error_inject, inject_configured}
use wow_so_distributed.Server.Uploads.{
  serve_writeback, receive, open_output, write_output, commit, settle,
}
use wow_so_distributed.Server.Downloads.{serve_read_file, chunks_from, send_file, send_sized}
use wow_so_distributed.Ops.Close.{unreliable_release, unreliable_release_impl}
use wow_so_distributed.Ops.Io.{unreliable_read}
use wow_so_distributed.Ops.Open.{unreliable_open}
use wow_so_distributed.Manager.Source.{after_stats}
use wow_so_distributed.Client.{rpc_failed}
use wow_so_distributed.Ops.FetchFails.{
  opened_there, unreliable_open_unfetched, unreliable_open_refused,
}
use wow_so_distributed.Ops.CloseToOpen.{
  unreliable_open-unreliable_release, unreliable_read-unreliable_release,
}
use wow_so_distributed.Examples.Disk.{
  contents, server, service, chunk, contents-Writes, server-Reads,
}
use wow_so_distributed.Examples.{
  reply, usual, env_of, quiet, refuse, plain, a_file, fi, hello, wrote, says_hello,
}

-- What a successful fwrite leaves of the file at `p`.
abbrev appended : Bytes → Reply → Bytes → Option Bytes → Option Bytes → Option Bytes
appended text r p none file = file
appended text r p (some path) file =
    if eq_bytes p path && eq_ℤ r.ret (pos (length text))
    then Option.map (λ f. f ++ text) file
    else file

abbrev cached : History → Bytes → Option Bytes
cached [] p = none
cached ((Call.fopen path, r) ∷ h) p =
    let before = cached h p in if eq_bytes p path && r.ok then some [] else before
cached ((Call.fwrite text, r) ∷ h) p = appended text r p (stream_of h) (cached h p)
cached ((Call.open_file path flags mode, r) ∷ h) p =
    let before = cached h p in if eq_bytes p path && truncates flags then some [] else before
cached (_ ∷ h) p = cached h p

cached-Caches : Caches cached
cached-Caches = record {
  fopen_empties = λ path r h well. rw (well, eq_bytes_refl path) refl;
  fwrite_appends = λ path text file r h last at full.
      rw
        (
          last,
          full,
          eq_bytes_refl path,
          (eq_ℤ_iff (pos (length text)) (pos (length text))).1 refl,
          at,
        )
        refl;
  fclose_keeps = λ p r h. refl;
  create_directories_keeps = λ p path r h. refl;
  open_keeps = λ p path file flags mode r h keeps at. ground (arith, keeps, at);
}

abbrev text_of : Option Bytes → Bytes
text_of none = []
text_of (some text) = text

abbrev read_last : Option (Bytes × ℤ) → History → Bytes
read_last none h = []
read_last (some (path, fd)) h = text_of (cached h path)

-- A client without the file, of a server that has it with eight bytes at most, on a kernel that
-- does what it is asked for.
abbrev answer : History → Call → Reply
answer h (Call.rpc (Request.download_stat path)) = record (reply (pos 0) 0 true) {
  stat = record zero_stat { size = pos 8 };
}
answer h (Call.stat path) = reply (negsuc 0) 2 true
answer h (Call.rpc_read_file path size) = record (reply (pos 0) 0 true) { messages = chunk ∷ [] }
answer h (Call.fwrite text) = reply (pos (length text)) 0 true
answer h (Call.pread fd size offset) =
    let text = read_last (last_open h) h in
    record (reply (pos (length text)) 0 true) { bytes = text }
answer h c = usual c

abbrev reader : Env
reader = record quiet { answer = answer }

reader-ReadsOpened : ReadsOpened cached reader
reader-ReadsOpened = record {
  counts = λ path text fd size h last at room. rw last (ap (λ o. pos (length (text_of o))) at);
  gives = λ path text fd size h last at room. rw last (ap text_of at);
}

unreliable_open-unreliable_release_example :
    IsOpened cached a_file hello (pos 2) (unreliable_open reader a_file fi plain)
unfolding serve_read_file chunks_from send_file send_sized serve_writeback receive open_output
    write_output commit settle unreliable_release error_inject inject_configured
    unreliable_release_impl writeback_to_server read_file read_sized writeback write_chunks eq_bytes
    is_empty register_file_open register_file_dirty get_file_path_from_fd is_file_dirty Dict.get
    Dict.put remove_mount_prefix is_absolute validate
unreliable_open-unreliable_release_example =
    unreliable_open-unreliable_release contents server service contents-Writes server-Reads
      (λ h fd text size offset. refl) (λ h path. refl) (λ h old new. refl) refl cached reader
      cached-Caches a_file refl (λ h dir. refl) (λ h. refl) (λ h text. refl) fi refl (λ h. refl)
      (env_of says_hello) fi hello 8 wrote wrote plain plain [] (omega arith) refl refl refl
      (λ h. refl) (λ h r. refl) (λ h r. refl) (λ h r. refl) (λ h req. refl) refl refl refl refl refl
      (omega arith) (omega arith) refl refl

unreliable_read-unreliable_release_example :
    let t1 = (unreliable_open reader a_file fi plain).1 in
    (unreliable_read reader a_file 8 (pos 0) (some (record { fh = 5; flags = pos 2 })) t1).0
    ≡ returned (pos 5, hello)
unfolding serve_read_file chunks_from send_file send_sized serve_writeback receive open_output
    write_output commit settle unreliable_release error_inject inject_configured
    unreliable_release_impl writeback_to_server read_file read_sized writeback write_chunks eq_bytes
    is_empty register_file_open register_file_dirty get_file_path_from_fd is_file_dirty Dict.get
    Dict.put remove_mount_prefix is_absolute validate unreliable_open should_fetch download_file
    save_to_cache
unreliable_read-unreliable_release_example =
    unreliable_read-unreliable_release contents server service contents-Writes server-Reads
      (λ h fd text size offset. refl) (λ h path. refl) (λ h old new. refl) refl cached reader
      cached-Caches a_file refl (λ h dir. refl) (λ h. refl) (λ h text. refl) fi refl (λ h. refl)
      (env_of says_hello) fi hello 8 wrote wrote plain plain [] (omega arith) refl refl refl
      (λ h. refl) (λ h r. refl) (λ h r. refl) (λ h r. refl) (λ h req. refl) refl refl refl refl refl
      (omega arith) (omega arith) refl refl 8 reader-ReadsOpened refl refl (omega arith)

-- The stream of the download fails.
abbrev cut_answer : History → Call → Reply
cut_answer h Call.rpc_read_finish = reply (pos 0) 0 false
cut_answer h c = answer h c

abbrev cut : Env
cut = record quiet { answer = cut_answer }

unreliable_open_unfetched_example : unreliable_open cut a_file fi plain ≡ (
  returned (pos 1, record fi { fh = 0 }),
  (download_file cut (remove_mount_prefix a_file) (pos 8) (after_stats cut a_file plain)).1,
)
unfolding error_inject inject_configured download_file eq_bytes remove_mount_prefix
unreliable_open_unfetched_example =
    unreliable_open_unfetched cut a_file fi plain plain refl rpc_failed hello refl refl refl

unreliable_open_refused_example : unreliable_open (env_of refuse) a_file fi plain ≡ (
  returned (negsuc 1, record fi { fh = 0 }),
  record (after_stats (env_of refuse) a_file plain) {
    history =
        (
          Call.rpc (Request.open_file (remove_mount_prefix a_file) fi.flags),
          opened_there (env_of refuse) a_file fi plain,
        )
        ∷ (after_stats (env_of refuse) a_file plain).history;
  },
)
unfolding error_inject inject_configured eq_bytes
unreliable_open_refused_example =
    unreliable_open_refused (env_of refuse) a_file fi plain plain refl refl refl
