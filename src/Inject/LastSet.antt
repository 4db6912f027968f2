-- ===== src/Inject/LastSet.antt =====
-- The configuration of wowFS/unreliablefs/unreliablefs_errinj.c, key by key: the last entry counts.
use wow_so_distributed.Base.{
  ℕ, Bool, false, ◌&&◌, ◌||◌, Option, none, some, List, [], ◌∷◌, Bytes, codes, eq_bytes,
  eq_bytes_iff, if◌then◌else◌, ◌≡◌, refl, ◌∙◌, ap, Bool-cases, inl, inr,
}
use wow_so_distributed.Base.Numbers.{atoi}
use wow_so_distributed.Machine.{ErrinjConf, ErrinjType}
use wow_so_distributed.Inject.Config.{errinj_name, uint32, assign, handle_all}
use wow_so_distributed.Inject.Settings.{find_conf, settings, find_conf-handle_all}

-- Whether there is a section of the type.
abbrev pub has_section : ErrinjType → List (Bytes × Bytes × Bytes) → Bool
has_section t [] = false
has_section t ((section, key, value) ∷ rest) =
    eq_bytes (errinj_name t) section || has_section t rest

-- The last value of a key in the sections of the type; `old` where there is none.
abbrev pub last_value :
    ErrinjType → Bytes → Option Bytes → List (Bytes × Bytes × Bytes) → Option Bytes
last_value t key old [] = old
last_value t key old ((section, key', value) ∷ rest) =
    last_value t key
      (if eq_bytes (errinj_name t) section && eq_bytes key' key then some value else old) rest

-- A number as the code reads it, where a missing key is 0.
abbrev pub number_or_zero : Option Bytes → ℕ
number_or_zero none = 0
number_or_zero (some value) = uint32 (atoi value)

-- An entry that has these last values.
abbrev pub entry_of : ErrinjType → (Bytes → Option Bytes) → ErrinjConf
entry_of t last = record {
  op_regexp = last (codes "op_regexp");
  path_regexp = last (codes "path_regexp");
  probability = number_or_zero (last (codes "probability"));
  duration = number_or_zero (last (codes "duration"));
  kind = t;
}

-- The values after an assignment.
abbrev set : Bytes → Bytes → (Bytes → Option Bytes) → Bytes → Option Bytes
set key value last key' = if eq_bytes key key' then some value else last key'

assign-entry_of :
    (t : ErrinjType) (key value : Bytes) (last : Bytes → Option Bytes)
    → assign key value (entry_of t last) ≡ entry_of t (set key value last)
unfolding assign eq_bytes
assign-entry_of t key value last = elim (Bool-cases (eq_bytes key (codes "path_regexp"))) [
  | inl hit ↦ rw ((eq_bytes_iff key _).0 hit) refl
  | inr no_path ↦ elim (Bool-cases (eq_bytes key (codes "op_regexp"))) [
    | inl hit ↦ rw ((eq_bytes_iff key _).0 hit) refl
    | inr no_op ↦ elim (Bool-cases (eq_bytes key (codes "probability"))) [
      | inl hit ↦ rw ((eq_bytes_iff key _).0 hit) refl
      | inr no_probability ↦ elim (Bool-cases (eq_bytes key (codes "duration"))) [
        | inl hit ↦ rw ((eq_bytes_iff key _).0 hit) refl
        | inr no_duration ↦ rw (no_path, no_op, no_probability, no_duration) refl
      ]
    ]
  ]
]

settings-entry_of :
    (t : ErrinjType) (last : Bytes → Option Bytes) (entries : List (Bytes × Bytes × Bytes))
    → settings t (some (entry_of t last)) entries
      ≡ some (entry_of t (λ key. last_value t key (last key) entries))
settings-entry_of t last [] = refl
settings-entry_of t last ((section, key, value) ∷ rest) =
    elim (Bool-cases (eq_bytes (errinj_name t) section)) [
      | inl hit ↦ rw hit (
          ap (λ err. settings t (some err) rest) (assign-entry_of t key value last)
          ∙ settings-entry_of t (set key value last) rest)
      | inr miss ↦ rw miss (settings-entry_of t last rest)
    ]

settings_from_none :
    (t : ErrinjType) (entries : List (Bytes × Bytes × Bytes))
    → settings t none entries ≡ (
        if has_section t entries
        then some (entry_of t (λ key. last_value t key none entries))
        else none)
settings_from_none t [] = refl
settings_from_none t ((section, key, value) ∷ rest) =
    elim (Bool-cases (eq_bytes (errinj_name t) section)) [
      | inl hit ↦ rw hit (
          ap (λ err. settings t (some err) rest) (assign-entry_of t key value (λ key'. none))
          ∙ settings-entry_of t (set key value (λ key'. none)) rest)
      | inr miss ↦ rw miss (settings_from_none t rest)
    ]

-- For each injection type, config_init's handler makes of the entries of the file: nothing, if no
-- section has the type's name; else the configuration whose patterns are the last values of
-- op_regexp and path_regexp in such sections (a null pointer where there is none), and whose
-- probability and duration are those of the last values of their keys, read by atoi and converted to
-- unsigned int (0 where there is none).
pub find_conf-last_value :
    (t : ErrinjType) (entries : List (Bytes × Bytes × Bytes))
    → find_conf t (handle_all [] entries) ≡ (
        if has_section t entries
        then some (entry_of t (λ key. last_value t key none entries))
        else none)
find_conf-last_value t entries = find_conf-handle_all t [] entries ∙ settings_from_none t entries
