-- ===== src/Mount.antt =====
-- wowFS/unreliablefs/unreliablefs.c: the start of the client, up to FUSE and behind it. What
-- fuse_opt_parse makes of the command line is an argument.
pub mod Starts
pub mod Table
use wow_so_distributed.Base.{
  ℕ, ◌+◌, ℤ, pos, is_zero, not, List, [], ◌∷◌, ◌++◌, Bytes, codes, length, Bool, true, false,
  if◌then◌else◌,
}
use wow_so_distributed.Host.{Call, Reply, Env}
use wow_so_distributed.Exec.{pure, modify, ◌>>=◌, ◌>>◌}
use wow_so_distributed.Machine.{M, Process, call}
use wow_so_distributed.Inject.Config.{config_init}

-- The keys of unreliablefs_opts; `other_key` is any other that FUSE passes.
pub data Key : Type 0 where
  key_help key_version key_debug other_key : Key

-- Whether unreliablefs_opt_proc returns 1, which keeps the option for FUSE, or ends the process,
-- with the calls of fuse_main on the way.
pub data Parsed : Type 0 where
  kept : Parsed
  exited : List (List Bytes) → ℕ → Parsed

unfoldable pub opt_proc : Key → List Bytes → Parsed
opt_proc key_help outargs = exited [] 1
opt_proc key_version outargs = exited ((outargs ++ codes "--version" ∷ []) ∷ []) 1
opt_proc _ outargs = kept

-- `conf` and `args` after fuse_opt_parse: the defaults, where no option set another value.
pub record Options : Type 0 where
  pub basedir : Bytes
  pub args : List Bytes

abbrev pub defaults : List Bytes → Options
defaults args = record { basedir = codes "/"; args = args }

-- DEFAULT_CONF_NAME
abbrev pub default_conf_name : Bytes
default_conf_name = codes "unreliablefs.conf"

-- "%s/%s"
abbrev pub config_path_in : Bytes → Bytes
config_path_in basedir = basedir ++ b'/' ∷ default_conf_name

-- "-omodules=subdir,subdir=%s". sprintf writes it into a buffer of PATH_MAX bytes; where it does
-- not fit, the behaviour is not defined.
abbrev pub subdir_option : Bytes → Bytes
subdir_option basedir = codes "-omodules=subdir,subdir=" ++ basedir

-- strlen(DEFAULT_CONF_NAME) + strlen(conf.basedir) + 2
abbrev pub config_path_size : Bytes → ℕ
config_path_size basedir = length default_conf_name + length basedir + 2

module _ (env : Env) where
  unfoldable pub is_dir : Bytes → M Bool
  unfolding call
  is_dir path = do
    r ← call env (Call.stat path)
    pure (if not (is_zero r.ret) then false else r.stat.is_dir)

  -- From pthread_mutex_init on.
  unfoldable pub serve : List Bytes → M ℤ
  unfolding call
  serve args = do
    mutex ← call env Call.pthread_mutex_init
    if not (is_zero mutex.ret)
        then pure (pos 1)
        else (do r ← call env (Call.fuse_main args); pure r.ret)

  -- The configuration that is read, with its path.
  unfoldable pub configure : Bytes → M (Unit {0})
  unfolding config_init
  configure config_path = do
    errors ← config_init env config_path
    modify (λ s. record s { conf = record { errors = errors; config_path = config_path } })

  -- main, behind fuse_opt_parse; EXIT_FAILURE is 1.
  unfoldable pub main : Options → M ℤ
  unfolding is_dir serve configure call
  main o = do
    found ← is_dir o.basedir
    if not found then pure (pos 1) else (do
      real ← call env (Call.realpath o.basedir)
      if not real.ok then pure (pos 1) else (do
        buf ← call env (Call.malloc (config_path_size real.bytes))
        if not buf.ok then pure (pos 1) else (do
          configure (config_path_in real.bytes)
          serve (o.args ++ subdir_option o.basedir ∷ []))))
