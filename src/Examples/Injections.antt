-- ===== src/Examples/Injections.antt =====
-- The theorems applied to concrete input: error injection and its configuration.
use wow_so_distributed.Base.{
  pos, none, some, eq_bytes, List, [], ◌∷◌, Bytes, codes, ◌≡◌, int_eq, bytes_eq, arith,
}
use wow_so_distributed.Host.{Call}
use wow_so_distributed.Exec.{returned}
use wow_so_distributed.Inject.{random_element}
use wow_so_distributed.Inject.Draws.{random_element_outside, after_rand, stray, drawn}
use wow_so_distributed.Inject.Settings as Settings
use wow_so_distributed.Inject.LastSet.{find_conf-last_value}
use wow_so_distributed.Base.Numbers.{atoi}
use wow_so_distributed.Inject.Config.{handle_all, uint32, errinj_name}
use wow_so_distributed.Machine.{errinj_noop}
use wow_so_distributed.Examples.{quiet, plain}

random_element_outside_example :
    (drawn quiet (13 ∷ 2 ∷ []) plain ≡ 2)
    × (random_element quiet (13 ∷ 2 ∷ []) plain ≡ (
      returned (pos 77),
      record plain {
        history =
            (Call.stray_read, stray quiet (13 ∷ 2 ∷ []) plain)
            ∷ (after_rand quiet (13 ∷ 2 ∷ []) plain).history;
      },
    ))
random_element_outside_example = random_element_outside quiet (13 ∷ 2 ∷ []) plain (omega arith)

abbrev entries : List (Bytes × Bytes × Bytes)
entries =
    (codes "errinj_noop", codes "probability", codes "40")
    ∷ (codes "other", codes "probability", codes "1")
    ∷ (codes "errinj_noop", codes "op_regexp", codes "read")
    ∷ []

find_conf-last_value_example :
    Settings.find_conf errinj_noop (handle_all [] entries)
    ≡ some (record {
      op_regexp = some (codes "read");
      path_regexp = none;
      probability = 40;
      duration = 0;
      kind = errinj_noop;
    })
unfolding eq_bytes atoi uint32 errinj_name
find_conf-last_value_example = find_conf-last_value errinj_noop entries
