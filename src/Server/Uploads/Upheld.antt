-- ===== src/Server/Uploads/Upheld.antt =====
-- wowRPC/WowRPCServer.H: a rule for the loop of Writeback. What the calls of one round keep up, the
-- loop keeps up.
use wow_so_distributed.Base.{
  ℕ, ℤ, pos, is_minus_one, List, [], ◌∷◌, ◌++◌, Bytes, codes, some, ◌≡◌, refl, inl, inr, true,
  false, Bool-cases, is_positive, if◌then◌else◌,
}
use wow_so_distributed.Host.{Call, History, WriteRequest, Env}
use wow_so_distributed.Exec.{Exit, returned, continue}
use wow_so_distributed.Server.{WowFsServiceImpl, Handler, sys}
use wow_so_distributed.Server.Uploads.{
  Upload, Round, no_upload, open_output, write_output, receive, with_paths, upload_failed, settle,
}

-- All requests are for one file, as the client sends them.
abbrev pub AllFor : Bytes → List WriteRequest → Type 0
AllFor path [] = Unit
AllFor path (req ∷ reqs) = (req.path ≡ path) × AllFor path reqs

module _ (service : WowFsServiceImpl) (path : Bytes) where
  abbrev pub final : Bytes
  final = service.basedir ++ path

  abbrev pub tmp : Bytes
  tmp = final ++ codes ".wow"

  -- The locals name the files of `path`.
  abbrev pub IsNamed : Upload → Type 0
  IsNamed up = (up.final_path ≡ final) × (up.tmp_path ≡ tmp)

module _ (env : Env) (service : WowFsServiceImpl) (path : Bytes) where
  -- `Good` holds while the loop goes on, `Bad` when it has failed.
  pub record Upholds (Good : Upload → History → Type 0) (Bad : History → Type 0) : Type 0 where
    pub re_path :
        (req : WriteRequest) (up : Upload) (h : History)
        → Good up h
        → Good (with_paths service.basedir req up) h
    pub opened :
        (up : Upload) (h : History)
        → IsNamed service path up
        → Good up h
        → let c = Call.open_file up.tmp_path (pos 577) (some 511) in
          is_minus_one (env.answer h c).ret ≡ false
          → Good (record up { output_fd = (env.answer h c).ret }) ((c, env.answer h c) ∷ h)
    pub not_opened :
        (up : Upload) (h : History)
        → IsNamed service path up
        → Good up h
        → let c = Call.open_file up.tmp_path (pos 577) (some 511) in
          is_minus_one (env.answer h c).ret ≡ true → Bad ((c, env.answer h c) ∷ h)
    pub wrote :
        (req : WriteRequest) (up : Upload) (h : History) (n : ℤ)
        → IsNamed service path up
        → is_minus_one up.output_fd ≡ false
        → Good up h
        → let c = Call.pwrite up.output_fd req.buf req.size (pos req.offset) in
          Good (record up { num_bytes_written = n }) ((c, env.answer h c) ∷ h)
    pub not_wrote :
        (req : WriteRequest) (up : Upload) (h : History)
        → IsNamed service path up
        → is_minus_one up.output_fd ≡ false
        → Good up h
        → let c = Call.pwrite up.output_fd req.buf req.size (pos req.offset) in
          is_minus_one (env.answer h c).ret ≡ true → Bad ((c, env.answer h c) ∷ h)

  module _ (Good : Upload → History → Type 0) (Bad : History → Type 0) (u : Upholds Good Bad) where
    pub data IsUpheld : Exit Round × History → Type 0 where
      going :
          (up : Upload) (h : History)
          → IsNamed service path up
          → is_minus_one up.output_fd ≡ false
          → Good up h
          → IsUpheld (returned (inr up), h)
      failed :
          (errno : ℕ) (h : History) → Bad h → IsUpheld (returned (inl (upload_failed errno)), h)

    IsUpheld-bind :
        (x : Exit Round × History) (f : Round → Handler Round)
        → IsUpheld x
        → ((round : Round) (h : History) → IsUpheld (returned round, h) → IsUpheld (f round h))
        → IsUpheld (continue x.0 f x.1)
    IsUpheld-bind _ f (going up h named there good) k = k (inr up) h (going up h named there good)
    IsUpheld-bind _ f (failed errno h bad) k = k (inl (upload_failed errno)) h (failed errno h bad)

    open_output-IsUpheld :
        (up : Upload) (h : History)
        → IsNamed service path up
        → Good up h
        → IsUpheld (open_output env service up h)
    unfolding open_output sys
    open_output-IsUpheld up h named good =
        let c = Call.open_file up.tmp_path (pos 577) (some 511) in
        elim (Bool-cases (is_minus_one up.output_fd)) [
          | inl fresh ↦ elim (Bool-cases (is_minus_one (env.answer h c).ret)) [
            | inl bad ↦ rw (fresh, bad) (failed _ _ (u.not_opened up h named good bad))
            | inr well ↦ rw (fresh, well) (going _ _ named well (u.opened up h named good well))
          ]
          | inr there ↦ rw there (going up h named there good)
        ]

    write_output-IsUpheld :
        (req : WriteRequest) (round : Round) (h : History)
        → IsUpheld (returned round, h)
        → IsUpheld (write_output env service req round h)
    unfolding write_output sys
    write_output-IsUpheld req _ _ (failed errno h bad) = failed errno h bad
    write_output-IsUpheld req _ _ (going up h named there good) =
        let c = Call.pwrite up.output_fd req.buf req.size (pos req.offset) in
        elim (Bool-cases (is_minus_one (env.answer h c).ret)) [
          | inl bad ↦ rw bad (failed _ _ (u.not_wrote req up h named there good bad))
          | inr well ↦ rw well (going _ _ named there (u.wrote req up h _ named there good))
        ]

    receive-IsUpheld :
        (reqs : List WriteRequest) (round : Round) (h : History)
        → AllFor path reqs
        → IsUpheld (returned round, h)
        → IsUpheld (receive env service reqs round h)
    unfolding receive
    receive-IsUpheld [] _ _ for (failed errno h bad) = failed errno h bad
    receive-IsUpheld [] _ _ for (going up h named there good) = going up h named there good
    receive-IsUpheld (req ∷ rest) _ _ for (failed errno h bad) = failed errno h bad
    receive-IsUpheld (req ∷ rest) _ _ (mine, others) (going up h named there good) =
        IsUpheld-bind _ _
          (open_output-IsUpheld (with_paths service.basedir req up) h (rw mine (refl, refl))
            (u.re_path req up h good))
          (λ round1 h1 r1.
            IsUpheld-bind _ _ (write_output-IsUpheld req round1 h1 r1)
              (λ round2 h2 r2. receive-IsUpheld rest round2 h2 others r2))

    -- The loop from its start.
    pub receive_first-IsUpheld :
        (req : WriteRequest) (rest : List WriteRequest) (h : History)
        → AllFor path (req ∷ rest)
        → Good no_upload h
        → IsUpheld (receive env service (req ∷ rest) (inr no_upload) h)
    unfolding receive
    receive_first-IsUpheld req rest h (mine, others) good =
        IsUpheld-bind _ _
          (open_output-IsUpheld (with_paths service.basedir req no_upload) h (rw mine (refl, refl))
            (u.re_path req no_upload h good))
          (λ round1 h1 r1.
            IsUpheld-bind _ _ (write_output-IsUpheld req round1 h1 r1)
              (λ round2 h2 r2. receive-IsUpheld rest round2 h2 others r2))

  -- The history after the settling of the locals.
  abbrev pub settled : Upload → History → History
  settled up h =
      let synced = (Call.fsync up.output_fd, env.answer h (Call.fsync up.output_fd)) ∷ h in
      if is_positive up.output_fd
      then (Call.close up.output_fd, env.answer synced (Call.close up.output_fd)) ∷ synced
      else h

  pub settle-settled :
      (up : Upload) (h : History) → settle env service up h ≡ (returned tt, settled up h)
  unfolding settle sys
  settle-settled up h = elim (Bool-cases (is_positive up.output_fd)) [
    | inl fd ↦ rw fd refl
    | inr none ↦ rw none refl
  ]
