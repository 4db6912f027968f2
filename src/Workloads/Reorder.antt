-- ===== src/Workloads/Reorder.antt =====
-- workloads/durability_tests/reorder.cc, and what its writes come to in the queue of
-- wowFS/unreliablefs/WowLocalWriteReorder.H.
use wow_so_distributed.Base.{
  ℕ, ◌+◌, ℤ, pos, Bool, true, not, ◌&&◌, some, List, [], ◌∷◌, ◌++◌, Bytes, codes, eq_bytes, length,
}
use wow_so_distributed.Host.{Call, History, Env}
use wow_so_distributed.Exec.{Exec, pure, ◌>>=◌, ◌>>◌}
use wow_so_distributed.LocalReorder.{FuseFileInfo, WriteOp, wow_kill_phrase, c_string, record_write}
use wow_so_distributed.Server.{sys}

abbrev file_path : Bytes
file_path = codes "/tmp/wowfs/durability/reorder.txt"

-- The messages in front of WOW_KILL_PHRASE.
abbrev pub values : List Bytes
values =
    codes "Value A\n"
    ∷ codes "Value B\n"
    ∷ codes "Value C\n"
    ∷ codes "Value D\n"
    ∷ codes "Value E\n"
    ∷ codes "Value F\n"
    ∷ codes "Value G\n"
    ∷ []

abbrev message_array : List Bytes
message_array = values ++ wow_kill_phrase ∷ []

unfoldable total_size : List Bytes → ℕ
total_size [] = 0
total_size (m ∷ messages) = length m + total_size messages

module _ (env : Env) where
  -- The loop of pwrites, with `offset`.
  unfoldable write_messages : ℤ → ℕ → List Bytes → Exec History (Unit {0})
  unfolding sys
  write_messages fd offset [] = pure tt
  write_messages fd offset (m ∷ messages) = do
    sys env (Call.pwrite fd m (length m) (pos offset))
    write_messages fd (offset + length m) messages

  -- O_CREAT | O_WRONLY is 65, and 0777 is 511. A failed open is only printed.
  unfoldable main : Exec History ℤ
  unfolding sys write_messages total_size
  main = do
    opened ← sys env (Call.open_file file_path (pos 65) (some 511))
    sys env (Call.ftruncate opened.ret (pos (total_size message_array)))
    sys env (Call.fsync opened.ret)
    write_messages opened.ret 0 message_array
    sys env (Call.close opened.ret)
    pure (pos 0)

-- The queue when each of the messages has been recorded, one behind the other.
unfoldable pub record_all : Bytes → FuseFileInfo → ℕ → List Bytes → List WriteOp → List WriteOp
unfolding record_write
record_all path fi offset [] queue = queue
record_all path fi offset (m ∷ messages) queue =
    record_all path fi (offset + length m) messages
      (record_write path m (length m) (pos offset) fi queue)

-- A message that RecordWrite does not cut, and that does not end the process.
abbrev pub is_text : Bytes → Bool
is_text m = eq_bytes (c_string m) m && not (eq_bytes m wow_kill_phrase)

abbrev pub all_text : List Bytes → Bool
all_text [] = true
all_text (m ∷ messages) = is_text m && all_text messages

-- The file that the messages are.
abbrev pub joined : List Bytes → Bytes
joined [] = []
joined (m ∷ messages) = m ++ joined messages
