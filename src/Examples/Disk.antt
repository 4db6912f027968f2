-- ===== src/Examples/Disk.antt =====
-- A file system of a few lines, on which the theorems about the server's files are applied.
use wow_so_distributed.Base.{
  ℕ, ℤ, pos, is_minus_one, eq_ℤ, eq_ℤ_iff, Option, none, some, [], ◌∷◌, Bytes, eq_bytes,
  eq_bytes_iff, eq_bytes_refl, ◌≡◌, ◌≢◌, refl, ◌∙◌, true, false, ◌&&◌, not, if◌then◌else◌, take,
  length, ap, arith, Bool-cases, inl, inr, codes, int_eq, bytes_eq,
}
use mathlib.Core.Option
use wow_so_distributed.Base.Int.{pos_part}
use wow_so_distributed.Host.{Call, Reply, History, ReadResponse, Env}
use wow_so_distributed.Exec.{returned}
use wow_so_distributed.Client.{writeback}
use wow_so_distributed.Client.Chunks.{sent}
use wow_so_distributed.Server.{WowFsServiceImpl}
use wow_so_distributed.Server.Uploads.{serve_writeback}
use wow_so_distributed.Server.Journey.{Reads}
use wow_so_distributed.Server.Uploads.Upheld.{tmp, final}
use wow_so_distributed.Server.Atomic.{last_open, KeepsOthers, IsAtomic, serve_writeback-IsAtomic}
use wow_so_distributed.Server.Installed.{Writes, serve_writeback_delivers}
use wow_so_distributed.Server.Arrival.{put_at}
use wow_so_distributed.Examples.{reply, usual, quiet, plain, a_file}

-- What a successful pwrite leaves of a file.
abbrev written :
    ℤ → Bytes → ℕ → ℤ → Reply → Bytes → Option (Bytes × ℤ) → Option Bytes → Option Bytes
written fd text size offset r p none file = file
written fd text size offset r p (some (path, fd')) file =
    if eq_bytes p path && (eq_ℤ fd fd' && eq_ℤ r.ret (pos size))
    then Option.map (put_at (pos_part offset) (take size text)) file
    else file

abbrev pub contents : History → Bytes → Option Bytes
contents [] p = none
contents ((Call.open_file path flags mode, r) ∷ h) p =
    let before = contents h p in
    if eq_bytes p path && (eq_ℤ flags (pos 577) && not (is_minus_one r.ret))
    then some []
    else before
contents ((Call.pwrite fd text size offset, r) ∷ h) p =
    written fd text size offset r p (last_open h) (contents h p)
contents ((Call.rename old new, r) ∷ h) p =
    let before = contents h p in
    let moved = contents h old in if eq_ℤ r.ret (pos 0) && eq_bytes p new then moved else before
contents (_ ∷ h) p = contents h p

differ : (p path : Bytes) → p ≢ path → eq_bytes p path ≡ false
differ p path apart = elim (Bool-cases (eq_bytes p path)) [
  | inl same ↦ absurd (apart ((eq_bytes_iff p path).0 same))
  | inr other ↦ other
]

eq_ℤ_refl : (n : ℤ) → eq_ℤ n n ≡ true
eq_ℤ_refl n = (eq_ℤ_iff n n).1 refl

contents-KeepsOthers : KeepsOthers contents
contents-KeepsOthers = record {
  open_keeps = λ p path flags mode r h apart. rw (differ p path apart) refl;
  pwrite_keeps = λ p path fd text size offset r h last apart. rw (last, differ p path apart) refl;
  fsync_keeps = λ p fd r h. refl;
  close_keeps = λ p fd r h. refl;
}

pub contents-Writes : Writes contents
contents-Writes = record {
  open_empties = λ path mode r h well. rw (well, eq_bytes_refl path) refl;
  pwrite_puts = λ path fd text file size offset r h last at full.
      rw (last, full, eq_bytes_refl path, eq_ℤ_refl fd, eq_ℤ_refl (pos size), at) refl;
  fsync_keeps = λ p fd r h. refl;
  close_keeps = λ p fd r h. refl;
  rename_moves = λ old new file r h well at. rw (well, eq_bytes_refl new, at) refl;
}

abbrev pub service : WowFsServiceImpl
service = record { basedir = codes "/r/"; with_crash_on_write = false }

serve_writeback-IsAtomic_example : IsAtomic contents service a_file (codes "/r/b") [] (
    serve_writeback quiet service
      (record { path = a_file; buf = codes "hello"; size = 5; offset = 0 } ∷ [])
      [])
serve_writeback-IsAtomic_example =
    serve_writeback-IsAtomic contents quiet service a_file (codes "/r/b") [] contents-KeepsOthers
      (λ e. let l : 4 ≡ length (tmp service a_file) = ap length e in omega (arith, l))
      (record { path = a_file; buf = codes "hello"; size = 5; offset = 0 }) [] (refl, tt)

abbrev read_last : Option (Bytes × ℤ) → History → Bytes
read_last none h = []
read_last (some (path, fd)) h = elim (contents h path) [ none ↦ [] | some text ↦ text ]

-- A kernel whose reads give what the file system holds.
abbrev answer : History → Call → Reply
answer h (Call.pread fd size offset) =
    let text = read_last (last_open h) h in
    record (reply (pos (length text)) 0 true) { bytes = text }
answer h c = usual c

abbrev pub server : Env
server = record quiet { answer = answer }

-- To open a file for reading changes nothing.
contents-reopen :
    (path p : Bytes) (r : Reply) (h : History)
    → contents ((Call.open_file path (pos 0) none, r) ∷ h) p ≡ contents h p
contents-reopen path p r h = elim (Bool-cases (eq_bytes p path)) [
  | inl same ↦ rw same refl
  | inr other ↦ rw other refl
]

read_last_there :
    (path text : Bytes) (h : History)
    → contents h path ≡ some text
    → let h' = (Call.open_file path (pos 0) none, reply (pos 5) 0 true) ∷ h in
      read_last (some (path, pos 5)) h' ≡ text
read_last_there path text h at =
    let e : contents ((Call.open_file path (pos 0) none, reply (pos 5) 0 true) ∷ h) path
        ≡ some text =
      contents-reopen path path (reply (pos 5) 0 true) h ∙ at in
    ap (λ o. elim o [ none ↦ [] | some t ↦ t ]) e

pub server-Reads : Reads server contents
server-Reads = record {
  opens_there = λ path text h at. refl;
  reads_bytes = λ path text size h at room. read_last_there path text h at;
  reads_count =
      λ path text size h at room. ap (λ t. pos (length t)) (read_last_there path text h at);
}

abbrev pub chunk : ReadResponse
chunk = record { ret = pos 5; server_errno = pos 0; buf = codes "hello" }

serve_writeback_delivers_example :
    let y =
      serve_writeback quiet service
        (sent (writeback quiet a_file (codes "hello") plain).1.history)
        [] in
    (y.0 ≡ returned (record { ret = pos 5; server_errno = pos 0 }))
    × (contents y.1 (final service a_file) ≡ some (codes "hello"))
serve_writeback_delivers_example =
    serve_writeback_delivers contents quiet service contents-Writes (λ h fd text size offset. refl)
      (λ h path. refl) (λ h old new. refl) refl a_file quiet (codes "hello") plain []
      (λ h req. refl) refl
