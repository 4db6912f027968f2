-- ===== src/Server/Atomic.antt =====
-- Writeback of wowRPC/WowRPCServer.H and the files of the server, of which the kernel is trusted to
-- do what POSIX says: what a reader finds in them while an upload is under way, and after it.
use wow_so_distributed.Base.{
  ℕ, ℤ, is_minus_one, Option, none, some, List, [], ◌∷◌, Bytes, ◌≡◌, ◌≢◌, refl, ◌∙◌, inl, inr,
  false, Bool-cases, is_positive, if◌then◌else◌,
}
use wow_so_distributed.Host.{Call, Reply, History, Event, WriteRequest, Env}
use wow_so_distributed.Exec.{Exit, returned, terminated, continue}
use wow_so_distributed.Client.{RpcResponse}
use wow_so_distributed.Server.{WowFsServiceImpl, sys}
use wow_so_distributed.Server.Uploads.{Upload, Round, commit, serve_writeback}
use wow_so_distributed.Server.Uploads.Upheld.{
  AllFor, final, tmp, Upholds, IsUpheld, going, failed, receive_first-IsUpheld, settled,
  settle-settled,
}
use wow_so_distributed.Server.Uploads.{upload_failed}

-- The file that was opened last and is still open, with its descriptor.
abbrev pub last_open : History → Option (Bytes × ℤ)
last_open [] = none
last_open ((Call.open_file path flags mode, r) ∷ h) =
    if is_minus_one r.ret then none else some (path, r.ret)
last_open ((Call.close fd, r) ∷ h) = none
last_open ((Call.rename old new, r) ∷ h) = none
last_open (_ ∷ h) = last_open h

-- A moment after `h`, such that at no moment in between the file at `path` differed from what it
-- was at `h`.
pub data Unchanged (contents : History → Bytes → Option Bytes) (path : Bytes) (h : History)
    : History → Type 0 where
  now : Unchanged contents path h h
  later :
      {h' : History} (e : Event)
      → Unchanged contents path h h'
      → contents (e ∷ h') path ≡ contents h path
      → Unchanged contents path h (e ∷ h')

-- What the kernel is trusted to leave alone: a file at another path than the one that is opened, or
-- written through the descriptor that was opened last. No two paths are links to one file.
pub record KeepsOthers (contents : History → Bytes → Option Bytes) : Type 0 where
  pub open_keeps :
      (p path : Bytes) (flags : ℤ) (mode : Option ℕ) (r : Reply) (h : History)
      → p ≢ path
      → contents ((Call.open_file path flags mode, r) ∷ h) p ≡ contents h p
  pub pwrite_keeps :
      (p path : Bytes) (fd : ℤ) (text : Bytes) (size : ℕ) (offset : ℤ) (r : Reply) (h : History)
      → last_open h ≡ some (path, fd)
      → p ≢ path
      → contents ((Call.pwrite fd text size offset, r) ∷ h) p ≡ contents h p
  pub fsync_keeps :
      (p : Bytes) (fd : ℤ) (r : Reply) (h : History)
      → contents ((Call.fsync fd, r) ∷ h) p ≡ contents h p
  pub close_keeps :
      (p : Bytes) (fd : ℤ) (r : Reply) (h : History)
      → contents ((Call.close fd, r) ∷ h) p ≡ contents h p

-- The ways in which Writeback ends for the file at `p`, unchanged at every moment before the
-- rename.
module _ (contents : History → Bytes → Option Bytes) (service : WowFsServiceImpl) (path p : Bytes)
    (h0 : History) where
  pub data IsAtomic : Exit RpcResponse × History → Type 0 where
    replaced :
        (response : RpcResponse) (r : Reply) (h : History)
        → Unchanged contents p h0 h
        → IsAtomic (returned response, (Call.rename (tmp service path) (final service path), r) ∷ h)
    refused :
        (errno : ℕ) (h : History)
        → Unchanged contents p h0 h
        → IsAtomic (returned (upload_failed errno), h)
    crashed : (h : History) → Unchanged contents p h0 h → IsAtomic (terminated, h)

module _ (contents : History → Bytes → Option Bytes) (env : Env) (service : WowFsServiceImpl)
    (path p : Bytes) (h0 : History) (kernel : KeepsOthers contents)
    (apart : p ≢ tmp service path) where
  abbrev Good : Upload → History → Type 0
  Good up h =
      Unchanged contents p h0 h
      × (is_minus_one up.output_fd ≡ false → last_open h ≡ some (tmp service path, up.output_fd))

  same_at : {h : History} → Unchanged contents p h0 h → contents h p ≡ contents h0 p
  same_at now = refl
  same_at (later e u same) = same

  upholds : Upholds env service path Good (Unchanged contents p h0)
  upholds = record {
    re_path = λ req up h good. good;
    opened = λ up h named (u, held) well. (
      later _ u (kernel.open_keeps p _ _ _ _ h (rw named.1 apart) ∙ same_at u),
      λ there. rw (well, named.1) refl,
    );
    not_opened = λ up h named (u, held) bad.
        later _ u (kernel.open_keeps p _ _ _ _ h (rw named.1 apart) ∙ same_at u);
    wrote = λ req up h n named there (u, held).
        (later _ u (kernel.pwrite_keeps p _ _ _ _ _ _ h (held there) apart ∙ same_at u), held);
    not_wrote = λ req up h named there (u, held) bad.
        later _ u (kernel.pwrite_keeps p _ _ _ _ _ _ h (held there) apart ∙ same_at u);
  }

  Unchanged-settled :
      (up : Upload) (h : History)
      → Unchanged contents p h0 h
      → Unchanged contents p h0 (settled env service path up h)
  Unchanged-settled up h u = elim (Bool-cases (is_positive up.output_fd)) [
    | inl fd ↦
        let synced = later _ u (kernel.fsync_keeps p up.output_fd _ h ∙ same_at u) in
        rw fd (later _ synced (kernel.close_keeps p up.output_fd _ _ ∙ same_at synced))
    | inr closed ↦ rw closed u
  ]

  commit-IsAtomic :
      (x : Exit Round × History)
      → IsUpheld env service path Good (Unchanged contents p h0) upholds x
      → IsAtomic contents service path p h0 (continue x.0 (commit env service) x.1)
  unfolding commit sys
  commit-IsAtomic _ (failed errno h u) = refused errno h u
  commit-IsAtomic _ (going up h named there (u, held)) =
      let end = settle-settled env service path up h in
      let u' = Unchanged-settled up h u in
      elim (Bool-cases service.with_crash_on_write) [
        | inl crash ↦ simp (end, crash) (crashed _ u')
        | inr calm ↦ simp (end, calm, named.0, named.1) (replaced _ _ _ u')
      ]

  -- Whatever requests, at least one, the client sends for the file at `path` and the kernel
  -- answers, a file at another place than the temporary one is at every moment of the Writeback
  -- what it was before, up to the rename of the temporary file to the file at `path`; the Writeback
  -- ends with the rename, or without it with the response -1 or a crash. The kernel is trusted to
  -- leave other files alone than the one that is opened or written.
  pub serve_writeback-IsAtomic :
      (req : WriteRequest) (rest : List WriteRequest)
      → AllFor path (req ∷ rest)
      → IsAtomic contents service path p h0 (serve_writeback env service (req ∷ rest) h0)
  unfolding serve_writeback
  serve_writeback-IsAtomic req rest mine = commit-IsAtomic _ (
      receive_first-IsUpheld env service path Good (Unchanged contents p h0) upholds req rest h0
        mine (now, λ there. cc))
