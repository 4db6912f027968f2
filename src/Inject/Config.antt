-- ===== src/Inject/Config.antt =====
-- The configuration of wowFS/unreliablefs/unreliablefs_errinj.c. The ini file is read by a copied
-- library: what it hands to the handler is `entries` of the reply.
use wow_so_distributed.Base.{
  ℕ, ◌-◌, ◌%◌, ◌^◌, ℤ, pos, negsuc, is_negative, is_zero, Bool, ◌||◌, Option, none, some, List, [],
  ◌∷◌, Bytes, codes, eq_bytes, if◌then◌else◌,
}
use wow_so_distributed.Base.Numbers.{atoi}
use wow_so_distributed.Host.{Call, Env}
use wow_so_distributed.Exec.{pure, ◌>>=◌}
use wow_so_distributed.Machine.{
  M, call, ErrinjConf, ErrinjType, errinj_errno, errinj_kill_caller, errinj_noop, errinj_slowdown,
  errinj_wow_reorder_local, errinj_wow_reorder_server, errinj_wow_delay, errinj_wow_crash,
}

-- The array errinj_name, indexed by the type.
unfoldable pub errinj_name : ErrinjType → Bytes
errinj_name errinj_errno = codes "errinj_errno"
errinj_name errinj_kill_caller = codes "errinj_kill_caller"
errinj_name errinj_noop = codes "errinj_noop"
errinj_name errinj_slowdown = codes "errinj_slowdown"
errinj_name errinj_wow_reorder_local = codes "errinj_wow_reorder_local"
errinj_name errinj_wow_reorder_server = codes "errinj_wow_reorder_server"
errinj_name errinj_wow_delay = codes "errinj_wow_delay"
errinj_name errinj_wow_crash = codes "errinj_wow_crash"

-- The types in the order of the enumeration.
abbrev pub all_types : List ErrinjType
all_types =
    errinj_errno ∷ errinj_kill_caller ∷ errinj_noop ∷ errinj_slowdown ∷ errinj_wow_reorder_local
    ∷ errinj_wow_reorder_server ∷ errinj_wow_delay ∷ errinj_wow_crash ∷ []

-- The loop over the names: the last match is kept, and `none` is the index -1.
unfoldable pub last_match : Bytes → List ErrinjType → Option ErrinjType → Option ErrinjType
last_match name [] idx = idx
last_match name (t ∷ ts) idx =
    last_match name ts (if eq_bytes (errinj_name t) name then some t else idx)

unfoldable pub errinj_type_by_name : Bytes → Option ErrinjType
unfolding last_match errinj_name
errinj_type_by_name name = last_match name all_types none

unfoldable pub same_type : ErrinjType → ErrinjType → Bool
same_type s t = eq_bytes (errinj_name s) (errinj_name t)

-- The conversion of an int to unsigned int.
unfoldable pub uint32 : ℤ → ℕ
uint32 (pos n) = n % 2 ^ 32
uint32 (negsuc n) = 2 ^ 32 - 1 - n % 2 ^ 32

-- calloc( 1, sizeof(struct errinj_conf) ) with its type.
abbrev pub new_conf : ErrinjType → ErrinjConf
new_conf t = record {
  op_regexp = none;
  path_regexp = none;
  probability = 0;
  duration = 0;
  kind = t;
}

-- The assignment of one key; an unknown key changes nothing.
unfoldable pub assign : Bytes → Bytes → ErrinjConf → ErrinjConf
unfolding atoi uint32
assign key value err =
    if eq_bytes key (codes "path_regexp")
    then record err { path_regexp = some value }
    else if eq_bytes key (codes "op_regexp")
    then record err { op_regexp = some value }
    else if eq_bytes key (codes "probability")
    then record err { probability = uint32 (atoi value) }
    else if eq_bytes key (codes "duration")
    then record err { duration = uint32 (atoi value) }
    else err

-- The search for the type's entry, and the entry appended where there is none.
unfoldable pub update_conf : ErrinjType → Bytes → Bytes → List ErrinjConf → List ErrinjConf
unfolding assign same_type
update_conf t key value [] = assign key value (new_conf t) ∷ []
update_conf t key value (np ∷ rest) =
    if same_type np.kind t then assign key value np ∷ rest else np ∷ update_conf t key value rest

unfoldable pub is_known_key : Bytes → Bool
is_known_key key =
    eq_bytes key (codes "path_regexp")
    || eq_bytes key (codes "op_regexp")
    || eq_bytes key (codes "probability")
    || eq_bytes key (codes "duration")

-- The queue after the call, and its result.
unfoldable pub conf_option_handler : List ErrinjConf → Bytes → Bytes → Bytes → List ErrinjConf × ℤ
unfolding errinj_type_by_name update_conf is_known_key
conf_option_handler cfg section key value = elim (errinj_type_by_name section) [
  | none ↦ (cfg, negsuc 0)
  | some t ↦ (update_conf t key value cfg, if is_known_key key then pos 1 else pos 0)
]

unfoldable pub handle_all : List ErrinjConf → List (Bytes × Bytes × Bytes) → List ErrinjConf
unfolding conf_option_handler
handle_all cfg [] = cfg
handle_all cfg ((section, key, value) ∷ rest) =
    handle_all (conf_option_handler cfg section key value).0 rest

-- `none` is NULL. calloc is taken to succeed.
unfoldable pub config_init : Env → Bytes → M (Option (List ErrinjConf))
unfolding call handle_all
config_init env conf_path = do
  found ← call env (Call.access conf_path (pos 0))
  if is_zero found.ret
      then (do
        parsed ← call env (Call.ini_parse conf_path)
        pure (if is_negative parsed.ret then none else some (handle_all [] parsed.entries)))
      else pure (some [])
