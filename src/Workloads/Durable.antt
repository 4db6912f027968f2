-- ===== src/Workloads/Durable.antt =====
-- workloads/durability_tests/checkpoint.cpp on a file system that does what POSIX says: a checkpoint is
-- in the file only when what it tells of is written.
use wow_so_distributed.Base.{
  ℕ, ◌≡◌, ◌≢◌, refl, sym, ap, ◌∙◌, ℤ, pos, is_minus_one, Bool, true, false, Option, none, some, [],
  ◌∷◌, Bytes, length, eq_bytes, eq_bytes_iff, contains,
}
use wow_so_distributed.Host.{Call, History, Reply, Env}
use wow_so_distributed.Exec.{returned}
use wow_so_distributed.Server.{sys}
use wow_so_distributed.Server.Atomic.{last_open}
use wow_so_distributed.Ops.Fetches.{truncates}
use wow_so_distributed.Workloads.Throughout.{Throughout, now, later}
use wow_so_distributed.Workloads.Checkpoint.{
  wowdb_file, checkpoints_file, checkpoint_1_key, very_imp_data, put,
}

-- Whether the file tells of the first checkpoint: the key stands in its text.
abbrev pub tells : Option Bytes → Bool
tells none = false
tells (some text) = contains checkpoint_1_key text

-- What the file system is trusted to do.
pub record Posix (contents : History → Bytes → Option Bytes) : Type 0 where
  pub open_empties :
      (path : Bytes) (r : Reply) (h : History)
      → is_minus_one r.ret ≡ false
      → contents ((Call.open_file path (pos 577) none, r) ∷ h) path ≡ some []
  pub open_keeps :
      (path file : Bytes) (flags : ℤ) (r : Reply) (h : History)
      → truncates flags ≡ false
      → contents h path ≡ some file
      → contents ((Call.open_file path flags none, r) ∷ h) path ≡ some file
  pub open_keeps_others :
      (p path : Bytes) (flags : ℤ) (r : Reply) (h : History)
      → p ≢ path
      → contents ((Call.open_file path flags none, r) ∷ h) p ≡ contents h p
  -- The first write through the descriptor of an open, which stands at the start of the file.
  pub write_fills :
      (path text : Bytes) (flags : ℤ) (o r : Reply) (h : History)
      → is_minus_one o.ret ≡ false
      → contents ((Call.open_file path flags none, o) ∷ h) path ≡ some []
      → r.ret ≡ pos (length text)
      → contents ((Call.write o.ret text, r) ∷ (Call.open_file path flags none, o) ∷ h) path
        ≡ some text
  pub write_keeps :
      (p path text : Bytes) (fd : ℤ) (r : Reply) (h : History)
      → last_open h ≡ some (path, fd)
      → p ≢ path
      → contents ((Call.write fd text, r) ∷ h) p ≡ contents h p
  pub close_keeps :
      (p : Bytes) (fd : ℤ) (r : Reply) (h : History)
      → contents ((Call.close fd, r) ∷ h) p ≡ contents h p
  pub exists_keeps :
      (p path : Bytes) (r : Reply) (h : History)
      → contents ((Call.fs_exists path, r) ∷ h) p ≡ contents h p
  pub ifstream_keeps :
      (p path : Bytes) (r : Reply) (h : History)
      → contents ((Call.ifstream path, r) ∷ h) p ≡ contents h p
  pub pread_keeps :
      (p : Bytes) (fd : ℤ) (size : ℕ) (offset : ℤ) (r : Reply) (h : History)
      → contents ((Call.pread fd size offset, r) ∷ h) p ≡ contents h p

-- The data is in its file.
abbrev pub Saved : (History → Bytes → Option Bytes) → History → Type 0
Saved contents h = contents h wowdb_file ≡ some very_imp_data

-- If the first checkpoint is told of, then the data is in its file.
abbrev pub IsDurable : (History → Bytes → Option Bytes) → History → Type 0
IsDurable contents h = tells (contents h checkpoints_file) ≡ true → Saved contents h

apart : wowdb_file ≢ checkpoints_file
unfolding eq_bytes
apart e =
    let same : eq_bytes wowdb_file checkpoints_file ≡ true =
      (eq_bytes_iff wowdb_file checkpoints_file).1 e in
    cc

module _ (contents : History → Bytes → Option Bytes) (env : Env) (fs : Posix contents)
    (opens : (h : History) (path : Bytes) (flags : ℤ)
      → is_minus_one (env.answer h (Call.open_file path flags none)).ret ≡ false)
    (writes : (h : History) (fd : ℤ) (text : Bytes)
      → (env.answer h (Call.write fd text)).ret ≡ pos (length text)) where
  -- Writing checkpoints leaves the data.
  pub put_checkpoint :
      (flags : ℤ) (text : Bytes) (h : History)
      → Saved contents h
      → let x = put env checkpoints_file flags text h in
        (x.0 ≡ returned tt) × Throughout (Saved contents) h x.1
  unfolding put sys
  put_checkpoint flags text h saved =
      let o = env.answer h (Call.open_file checkpoints_file flags none) in
      let h1 = (Call.open_file checkpoints_file flags none, o) ∷ h in
      let s1 = fs.open_keeps_others wowdb_file checkpoints_file flags o h apart ∙ saved in
      let w = env.answer h1 (Call.write o.ret text) in
      let opened : last_open h1 ≡ some (checkpoints_file, o.ret) = rw opens refl in
      let s2 = fs.write_keeps wowdb_file checkpoints_file text o.ret w h1 opened apart ∙ s1 in
      (refl, later _ (later _ (later _ (now saved) s1) s2) (fs.close_keeps wowdb_file _ _ _ ∙ s2))

  -- Writing the data, while no checkpoint tells of it.
  pub put_data :
      (h : History)
      → tells (contents h checkpoints_file) ≡ false
      → let x = put env wowdb_file (pos 577) very_imp_data h in
        (x.0 ≡ returned tt) × Throughout (IsDurable contents) h x.1 × Saved contents x.1
  unfolding put sys
  put_data h lacking =
      let o = env.answer h (Call.open_file wowdb_file (pos 577) none) in
      let h1 = (Call.open_file wowdb_file (pos 577) none, o) ∷ h in
      let l1 : tells (contents h1 checkpoints_file) ≡ false =
        ap tells
          (fs.open_keeps_others checkpoints_file wowdb_file (pos 577) o h (λ e. apart (sym e)))
        ∙ lacking in
      let w = env.answer h1 (Call.write o.ret very_imp_data) in
      let s2 =
        fs.write_fills wowdb_file very_imp_data (pos 577) o w h (opens h wowdb_file (pos 577))
          (fs.open_empties wowdb_file o h (opens h wowdb_file (pos 577)))
          (writes h1 o.ret very_imp_data) in
      let s3 = fs.close_keeps wowdb_file o.ret _ _ ∙ s2 in
      (refl, later _ (later _ (later _ (now (λ e. cc)) (λ e. cc)) (λ e. s2)) (λ e. s3), s3)
