-- ===== src/Mount/Starts.antt =====
-- wowFS/unreliablefs/unreliablefs.c: when the client mounts its file system, and with which
-- settings.
use wow_so_distributed.Base.{
  ℕ, suc, ◌+◌, ℤ, pos, is_zero, is_negative, true, Option, none, some, List, [], ◌∷◌, ◌++◌, Bytes,
  length, length-append, ◌≡◌, refl, arith, Bool-cases, inl, inr, if◌then◌else◌,
}
use wow_so_distributed.Host.{Call, Reply, History, Env}
use wow_so_distributed.Exec.{Exit, returned}
use wow_so_distributed.Machine.{Process, call, ErrinjConf}
use wow_so_distributed.Inject.Config.{config_init, handle_all}
use wow_so_distributed.Mount.{
  Options, is_dir, configure, serve, main, config_path_in, config_path_size, default_conf_name,
  subdir_option,
}

-- How often fuse_main was called.
abbrev pub mounts : History → ℕ
mounts [] = 0
mounts ((Call.fuse_main args, r) ∷ h) = suc (mounts h)
mounts (_ ∷ h) = mounts h

module _ (env : Env) where
  -- What the file at `path` configures, when it is looked for after `h`: nothing to inject where there
  -- is none, `none` where it cannot be parsed, else what its entries set.
  abbrev pub configuration : History → Bytes → Option (List ErrinjConf)
  configuration h path =
      let there = env.answer h (Call.access path (pos 0)) in
      let parsed = env.answer ((Call.access path (pos 0), there) ∷ h) (Call.ini_parse path) in
      if is_zero there.ret
      then (if is_negative parsed.ret then none else some (handle_all [] parsed.entries))
      else some []

  -- config_init only asks for the file and parses it.
  configured :
      (path : Bytes) (s : Process)
      → let (x, s') = configure env path s in
        (x ≡ returned tt)
        × (mounts s'.history ≡ mounts s.history)
        × (s'.conf.config_path ≡ path)
        × (s'.conf.errors ≡ configuration s.history path)
  unfolding configure config_init call handle_all
  configured path s =
      elim (Bool-cases (is_zero (env.answer s.history (Call.access path (pos 0))).ret)) [
        | inl there ↦ rw there (refl, refl, refl, refl)
        | inr missing ↦ rw missing (refl, refl, refl, refl)
      ]

  module _ (o : Options) (s : Process) where
    abbrev pub found : Reply
    found = env.answer s.history (Call.stat o.basedir)

    abbrev pub real : Reply
    real = env.answer ((Call.stat o.basedir, found) ∷ s.history) (Call.realpath o.basedir)

    -- The calls in front of the configuration.
    abbrev pub before_config : History
    before_config =
        let h = (Call.realpath o.basedir, real) ∷ (Call.stat o.basedir, found) ∷ s.history in
        let c = Call.malloc (config_path_size real.bytes) in (c, env.answer h c) ∷ h

    -- The ways in which main ends.
    pub data IsStart : Exit ℤ × Process → Type 0 where
      refused :
          (s' : Process) → mounts s'.history ≡ mounts s.history → IsStart (returned (pos 1), s')
      served :
          (r : Reply) (s' : Process)
          → is_zero found.ret ≡ true
          → found.stat.is_dir ≡ true
          → real.ok ≡ true
          → s'.conf.config_path ≡ config_path_in real.bytes
          → s'.conf.errors ≡ configuration before_config (config_path_in real.bytes)
          → mounts s'.history ≡ mounts s.history
          → IsStart (
            returned r.ret,
            record s' {
              history = (Call.fuse_main (o.args ++ subdir_option o.basedir ∷ []), r) ∷ s'.history;
            },
          )

    serve-IsStart :
        (s' : Process)
        → is_zero found.ret ≡ true
        → found.stat.is_dir ≡ true
        → real.ok ≡ true
        → s'.conf.config_path ≡ config_path_in real.bytes
        → s'.conf.errors ≡ configuration before_config (config_path_in real.bytes)
        → mounts s'.history ≡ mounts s.history
        → IsStart (serve env (o.args ++ subdir_option o.basedir ∷ []) s')
    unfolding serve call
    serve-IsStart s' dir yes_dir resolved path errors same =
        elim (Bool-cases (is_zero (env.answer s'.history Call.pthread_mutex_init).ret)) [
          | inl well ↦ rw well (served _ _ dir yes_dir resolved path errors same)
          | inr bad ↦ rw bad (refused _ same)
        ]

    -- main calls fuse_main at most once, as its last call, and only when the base directory is a
    -- directory whose real path was found; the path of the configuration is then that of
    -- unreliablefs.conf there, the injections are those that the entries of that file set (none to
    -- inject where there is no file, a null pointer where it cannot be parsed), and the result is
    -- that of fuse_main. In all other cases the result is 1 and nothing is mounted.
    pub main-IsStart : IsStart (main env o s)
    unfolding main is_dir call
    main-IsStart =
        let h1 = (Call.stat o.basedir, found) ∷ s.history in
        let h2 = (Call.realpath o.basedir, real) ∷ h1 in
        let c = Call.malloc (config_path_size real.bytes) in
        let s3 = record s { history = (c, env.answer h2 c) ∷ h2 } in
        let (done, same, path, errors) = configured (config_path_in real.bytes) s3 in
        elim (Bool-cases (is_zero found.ret)) [
          | inr missing ↦ simp (missing) (refused _ refl)
          | inl dir ↦ elim (Bool-cases found.stat.is_dir) [
            | inr file ↦ simp (dir, file) (refused _ refl)
            | inl yes_dir ↦ elim (Bool-cases real.ok) [
              | inr unresolved ↦ simp (dir, yes_dir, unresolved) (refused _ refl)
              | inl resolved ↦ elim (Bool-cases (env.answer h2 c).ok) [
                | inr full ↦ simp (dir, yes_dir, resolved, full) (refused _ refl)
                | inl room ↦
                    simp (dir, yes_dir, resolved, room, done)
                      (serve-IsStart _ dir yes_dir resolved path errors same)
              ]
            ]
          ]
        ]

-- The allocated buffer holds the path of the configuration with its terminating NUL, and no byte
-- more: snprintf does not cut it.
config_path-fits :
    (basedir : Bytes) → length (config_path_in basedir) + 1 ≡ config_path_size basedir
config_path-fits basedir = omega (arith, length-append basedir (b'/' ∷ default_conf_name))
