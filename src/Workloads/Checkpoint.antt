-- ===== src/Workloads/Checkpoint.antt =====
-- workloads/durability_tests/checkpoint.cpp: the program that checkpoints what it has written. What
-- it prints is left out, but for the result.
use wow_so_distributed.Base.{
  ◌==◌, ℤ, pos, Bool, false, not, Option, none, some, List, [], ◌∷◌, ◌++◌, Bytes, codes, contains,
  exists, is_empty, if◌then◌else◌,
}
use wow_so_distributed.Host.{Call, History, Env}
use wow_so_distributed.Exec.{Exec, pure, terminate, ◌>>=◌, ◌>>◌}
use wow_so_distributed.Cache.Files.{filled}
use wow_so_distributed.Base.Numbers.{stoi}
use wow_so_distributed.Server.{sys}
use wow_so_distributed.Workloads.Fib.{fib_loop}

abbrev pub wowdb_file : Bytes
wowdb_file = codes "/tmp/wowfs/wow_db.txt"

abbrev pub checkpoints_file : Bytes
checkpoints_file = codes "/tmp/wowfs/wow_checkpoint.txt"

abbrev pub very_imp_data : Bytes
very_imp_data = codes "very_imp_data=42"

abbrev pub checkpoint_1_key : Bytes
checkpoint_1_key = codes "checkpoint_1"

-- What std::getline gives, line by line; `seen` is the line so far.
unfoldable pub lines_from : Bytes → Bytes → List Bytes
lines_from seen [] = if is_empty seen then [] else seen ∷ []
lines_from seen (c ∷ text) =
    let next = lines_from [] text in
    let more = lines_from (seen ++ c ∷ []) text in if c == 10 then seen ∷ next else more

-- The loop over the lines of the checkpoints.
unfoldable pub any_checkpoint : Bytes → Bool
unfolding lines_from contains
any_checkpoint text = exists (contains checkpoint_1_key) (lines_from [] text)

-- readBuf.substr( readBuf.find( '=' ) + 1 ): all of it, where there is no '='.
unfoldable pub behind_equals : Bytes → Bytes → Bytes
behind_equals whole [] = whole
behind_equals whole (c ∷ text) = if c == b'=' then text else behind_equals whole text

module _ (env : Env) where
  unfoldable pub checkpoint_one_present : Exec History Bool
  unfolding sys any_checkpoint
  checkpoint_one_present = do
    there ← sys env (Call.fs_exists checkpoints_file)
    if not there.ok then pure false else (do
      infile ← sys env (Call.ifstream checkpoints_file)
      pure (any_checkpoint infile.bytes))

  -- The number, where `none` is an exception of std::stoi.
  abbrev number_or_end : Option ℤ → Exec History ℤ
  number_or_end none = terminate
  number_or_end (some n) = pure n

  -- The first branch of main. A pread that gives -1 writes to readBuf[ -1 ]: then the behaviour is
  -- not defined, and the buffer is zero here.
  unfoldable pub recover : Exec History ℤ
  unfolding sys stoi behind_equals
  recover = do
    fd ← sys env (Call.open_file wowdb_file (pos 0) none)
    ret ← sys env (Call.pread fd.ret 1024 (pos 0))
    let read_buf = filled 1024 ret.bytes
    number_or_end (stoi (behind_equals read_buf read_buf))

  -- open, write and close; the results of write and close are not looked at.
  unfoldable pub put : Bytes → ℤ → Bytes → Exec History (Unit {0})
  unfolding sys
  put path flags text = do
    fd ← sys env (Call.open_file path flags none)
    sys env (Call.write fd.ret text)
    sys env (Call.close fd.ret)
    pure tt

  -- The second branch. O_WRONLY | O_TRUNC | O_CREAT is 577, and O_WRONLY | O_APPEND | O_CREAT 1089.
  unfoldable pub record_first : Exec History ℤ
  unfolding put
  record_first = do
    put wowdb_file (pos 577) very_imp_data
    put checkpoints_file (pos 1089)
        (checkpoint_1_key ++ codes ": very important data has been written\n")
    pure (pos 42)

  -- kill( std::stoi( argv[ 1 ] ), SIGSEGV ), where there is an argument.
  unfoldable pub kill_target : Option Bytes → Exec History (Unit {0})
  unfolding sys stoi
  kill_target none = pure tt
  kill_target (some arg) = do target ← number_or_end (stoi arg); sys env (Call.kill target); pure tt

  -- main, with the result that it prints. O_WRONLY | O_APPEND is 1025.
  unfoldable pub main : Option Bytes → Exec History ℤ
  unfolding checkpoint_one_present recover record_first put kill_target fib_loop
  main arg = do
    present ← checkpoint_one_present
    very_imp_number ← (if present then recover else record_first)
    put checkpoints_file (pos 1025) (codes "checkpoint 2: very_imp_computation has been done\n")
    kill_target arg
    pure (fib_loop very_imp_number)
