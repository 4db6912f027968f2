-- ===== src/Inject/Settings.antt =====
-- The configuration of wowFS/unreliablefs/unreliablefs_errinj.c as a whole: what config_init makes
-- of the entries of the ini file.
use wow_so_distributed.Base.{
  max, ℕ, ◌+◌, ◌≤◌, Bool, true, false, Option, none, some, List, [], ◌∷◌, Bytes, eq_bytes,
  eq_bytes_iff, eq_bytes_refl, if◌then◌else◌, ◌≡◌, ◌↔◌, ◌⊎◌, inl, inr, refl, sym, ap, ◌∙◌, arith,
  Option-cases, Bool-cases,
}
use wow_so_distributed.Machine.{
  ErrinjConf, ErrinjType, errinj_errno, errinj_kill_caller, errinj_noop, errinj_slowdown,
  errinj_wow_reorder_local, errinj_wow_reorder_server, errinj_wow_delay, errinj_wow_crash,
}
use wow_so_distributed.Inject.Config.{
  errinj_name, all_types, last_match, errinj_type_by_name, same_type, new_conf, assign, update_conf,
  conf_option_handler, handle_all,
}

by_name-errinj_name : (t : ErrinjType) → errinj_type_by_name (errinj_name t) ≡ some t
unfolding errinj_type_by_name eq_bytes
by_name-errinj_name errinj_errno = refl
by_name-errinj_name errinj_kill_caller = refl
by_name-errinj_name errinj_noop = refl
by_name-errinj_name errinj_slowdown = refl
by_name-errinj_name errinj_wow_reorder_local = refl
by_name-errinj_name errinj_wow_reorder_server = refl
by_name-errinj_name errinj_wow_delay = refl
by_name-errinj_name errinj_wow_crash = refl

last_match_found :
    (name : Bytes) (ts : List ErrinjType) (idx : Option ErrinjType) (t : ErrinjType)
    → last_match name ts idx ≡ some t
    → (eq_bytes (errinj_name t) name ≡ true) ⊎ (idx ≡ some t)
unfolding last_match
last_match_found name [] idx t h = inr h
last_match_found name (u ∷ us) idx t h =
    ground
      (arith, last_match_found name us (if eq_bytes (errinj_name u) name then some u else idx) t h)

errinj_type_by_name_found :
    (name : Bytes) (t : ErrinjType)
    → errinj_type_by_name name ≡ some t
    → eq_bytes (errinj_name t) name ≡ true
unfolding errinj_type_by_name
errinj_type_by_name_found name t h = ground (arith, last_match_found name all_types none t h)

-- A section is looked up as the type whose name it is.
errinj_type_by_name_iff :
    (t : ErrinjType) (name : Bytes)
    → (eq_bytes (errinj_name t) name ≡ true) ↔ (errinj_type_by_name name ≡ some t)
errinj_type_by_name_iff t name = (
  λ h.
      (let e : errinj_name t ≡ name = (eq_bytes_iff (errinj_name t) name).0 h in
        rw (← e) (by_name-errinj_name t)),
  λ h. errinj_type_by_name_found name t h,
)

same_type_iff : (s t : ErrinjType) → (same_type s t ≡ true) ↔ (s ≡ t)
unfolding same_type
same_type_iff s t = (
  λ h.
      (let e : some t ≡ some s =
          sym (by_name-errinj_name t) ∙ (errinj_type_by_name_iff s (errinj_name t)).0 h in
        cc),
  λ e. rw e (eq_bytes_refl (errinj_name t)),
)

-- The entry of a type.
abbrev pub find_conf : ErrinjType → List ErrinjConf → Option ErrinjConf
find_conf t [] = none
find_conf t (np ∷ rest) = if same_type np.kind t then some np else find_conf t rest

-- The entry that a key is assigned in.
abbrev pub or_new : ErrinjType → Option ErrinjConf → ErrinjConf
or_new t none = new_conf t
or_new t (some err) = err

assign-kind : (key value : Bytes) (err : ErrinjConf) → (assign key value err).kind ≡ err.kind
unfolding assign
assign-kind key value err = ground arith

find_conf-update_conf :
    (t u : ErrinjType) (key value : Bytes) (cfg : List ErrinjConf)
    → find_conf u (update_conf t key value cfg) ≡ (
        if same_type t u
        then some (assign key value (or_new t (find_conf t cfg)))
        else find_conf u cfg)
unfolding update_conf
find_conf-update_conf t u key value [] = rw (assign-kind key value (new_conf t))
find_conf-update_conf t u key value (np ∷ rest) = ground (
  arith,
  same_type_iff np.kind t,
  same_type_iff np.kind u,
  same_type_iff t u,
  assign-kind key value np,
  find_conf-update_conf t u key value rest,
)

-- What the entries say about one type: each sets a key, the later over the earlier.
abbrev pub settings :
    ErrinjType → Option ErrinjConf → List (Bytes × Bytes × Bytes) → Option ErrinjConf
settings t err [] = err
settings t err ((section, key, value) ∷ rest) =
    settings t
      (if eq_bytes (errinj_name t) section then some (assign key value (or_new t err)) else err)
      rest

find_conf-conf_option_handler :
    (u : ErrinjType) (section key value : Bytes) (cfg : List ErrinjConf)
    → find_conf u (conf_option_handler cfg section key value).0 ≡ (
        if eq_bytes (errinj_name u) section
        then some (assign key value (or_new u (find_conf u cfg)))
        else find_conf u cfg)
unfolding conf_option_handler
find_conf-conf_option_handler u section key value cfg =
    elim (Option-cases (errinj_type_by_name section)) [
      | inl unknown ↦
          let miss : eq_bytes (errinj_name u) section ≡ false =
            ground (arith, unknown, errinj_type_by_name_iff u section) in
          rw (unknown, miss, conf_option_handler)
      | inr (t, known) ↦ elim (Bool-cases (same_type t u)) [
        | inl same ↦
            let e : t ≡ u = (same_type_iff t u).0 same in
            let known' : errinj_type_by_name section ≡ some u = known ∙ ap some e in
            let hit : eq_bytes (errinj_name u) section ≡ true =
              (errinj_type_by_name_iff u section).1 known' in
            let self : same_type u u ≡ true = (same_type_iff u u).1 refl in
            rw (known', hit, conf_option_handler)
              (find_conf-update_conf u u key value cfg ∙ rw self)
        | inr other ↦
            let miss : eq_bytes (errinj_name u) section ≡ false =
              ground (arith, known, other, errinj_type_by_name_iff u section, same_type_iff t u) in
            rw (known, miss, conf_option_handler)
              (find_conf-update_conf t u key value cfg ∙ rw other)
      ]
    ]

pub find_conf-handle_all :
    (t : ErrinjType) (cfg : List ErrinjConf) (entries : List (Bytes × Bytes × Bytes))
    → find_conf t (handle_all cfg entries) ≡ settings t (find_conf t cfg) entries
unfolding handle_all
find_conf-handle_all t cfg [] = refl
find_conf-handle_all t cfg ((section, key, value) ∷ rest) =
    find_conf-handle_all t (conf_option_handler cfg section key value).0 rest
    ∙ ap (λ err. settings t err rest) (find_conf-conf_option_handler t section key value cfg)

-- How many entries a type has.
abbrev pub count_conf : ErrinjType → List ErrinjConf → ℕ
count_conf t [] = 0
count_conf t (np ∷ rest) = (if same_type np.kind t then 1 else 0) + count_conf t rest

count_here :
    (c : Bool) (n : ℕ)
    → (if c then 1 else 0) + n
      ≡ (if c then max 1 ((if c then 1 else 0) + n) else (if c then 1 else 0) + n)
count_here true n = omega arith
count_here false n = refl

count_later :
    (c d : Bool) (n : ℕ)
    → (c ≡ true → d ≡ false)
    → (if d then 1 else 0) + (if c then max 1 n else n)
      ≡ (if c then max 1 ((if d then 1 else 0) + n) else (if d then 1 else 0) + n)
count_later false d n h = refl
count_later true d n h = rw (h refl) (omega arith)

apart : (t v u : ErrinjType) → same_type v t ≡ false → same_type t u ≡ true → same_type v u ≡ false
apart t v u other same = let e : t ≡ u = (same_type_iff t u).0 same in rw (← e) other

count_conf-update_conf :
    (t u : ErrinjType) (key value : Bytes) (cfg : List ErrinjConf)
    → count_conf u (update_conf t key value cfg)
      ≡ (if same_type t u then max 1 (count_conf u cfg) else count_conf u cfg)
unfolding update_conf
count_conf-update_conf t u key value [] = rw (assign-kind key value (new_conf t)) (ground arith)
count_conf-update_conf t u key value (np ∷ rest) = elim (Bool-cases (same_type np.kind t)) [
  | inl here ↦
      let e : np.kind ≡ t = (same_type_iff np.kind t).0 here in
      rw (here, assign-kind key value np, e) (count_here (same_type t u) (count_conf u rest))
  | inr later ↦
      rw (later, count_conf-update_conf t u key value rest)
        (count_later (same_type t u) (same_type np.kind u) (count_conf u rest)
          (λ same. apart t np.kind u later same))
]

count_conf-conf_option_handler :
    (u : ErrinjType) (section key value : Bytes) (cfg : List ErrinjConf)
    → count_conf u cfg ≤ 1
    → count_conf u (conf_option_handler cfg section key value).0 ≤ 1
unfolding conf_option_handler
count_conf-conf_option_handler u section key value cfg h =
    elim (Option-cases (errinj_type_by_name section)) [
      | inl unknown ↦ rw (unknown, conf_option_handler) h
      | inr (t, known) ↦
          rw (known, conf_option_handler)
            (ground (arith, h, count_conf-update_conf t u key value cfg))
    ]

-- A type that has at most one entry in a configuration has at most one after any entries of a
-- file.
pub count_conf-handle_all :
    (t : ErrinjType) (cfg : List ErrinjConf) (entries : List (Bytes × Bytes × Bytes))
    → count_conf t cfg ≤ 1
    → count_conf t (handle_all cfg entries) ≤ 1
unfolding handle_all
count_conf-handle_all t cfg [] h = h
count_conf-handle_all t cfg ((section, key, value) ∷ rest) h =
    count_conf-handle_all t (conf_option_handler cfg section key value).0 rest
      (count_conf-conf_option_handler t section key value cfg h)
