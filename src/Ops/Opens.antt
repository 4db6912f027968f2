-- ===== src/Ops/Opens.antt =====
-- open and create of wowFS/unreliablefs/unreliablefs_ops.c register the descriptor that the kernel
-- has just returned: the cache manager's maps stay consistent where it was not in the table.
use wow_so_distributed.Base.{
  ℕ, ℤ, neg, is_minus_one, eq_ℤ, is_zero, not, pos, Bool, true, false, Option, none, some, [], ◌∷◌,
  Bytes, if◌then◌else◌, Bool-cases, inl, inr, ◌≡◌, refl,
}
use wow_so_distributed.Host.{Call, History, Env}
use wow_so_distributed.Exec.{Exit, returned, terminated, continue, pure, ◌>>=◌, ◌>>◌}
use wow_so_distributed.Exec.Keeps.{Keeps, keeps_rules}
use wow_so_distributed.Machine.{Process, M, call}
use wow_so_distributed.Machine.Stable.{
  IsStable, CacheOk, IsUnknown, CacheOk-IsStable, IsUnknown-IsStable,
}
use wow_so_distributed.LocalReorder.{FuseFileInfo}
use wow_so_distributed.Cache.Consistent.{register_file_open-IsConsistent}
use wow_so_distributed.Cache.Files
use wow_so_distributed.Client
use wow_so_distributed.Manager.{StatInfo, StatSelect, remote, should_fetch, remove_mount_prefix}
use wow_so_distributed.Inject.{error_inject, noop_code, reorder_writeback_code}
use wow_so_distributed.Inject.FuseOps.{op_open, op_creat}
use wow_so_distributed.Ops.Prologue.{guarded}
use wow_so_distributed.Ops.Keeps.{stable_rules, Keeps-on_file_op}
use wow_so_distributed.Ops.Close.{on_file_op}
use wow_so_distributed.Ops.Open.{
  open_done, open_local, ensure_remote, fetch_and_open, return_or_open, open_body, unreliable_open,
  unreliable_create,
}

-- What the last call returned.
abbrev pub last_ret : History → ℤ
last_ret [] = pos 0
last_ret ((c, r) ∷ h) = r.ret

-- The descriptor that the last call has opened.
abbrev pub just_opened : History → Option ℤ
just_opened ((Call.open_file path flags mode, r) ∷ h) =
    if is_minus_one r.ret then none else some r.ret
just_opened _ = none

-- If the last call has opened a descriptor, then the cache manager did not know it in `s`.
abbrev pub IsNew : Process → History → Type 0
IsNew s h = (fd : ℤ) → just_opened h ≡ some fd → IsUnknown fd s

-- From a consistent table `m` leads to one, if the descriptor that its last call has opened was not
-- in the table before.
pub record OpensOk {A : Type 0} (m : M A) : Type 0 where
  pub at : (s : Process) → CacheOk s → IsNew s (m s).1.history → CacheOk (m s).1

-- The same, where the descriptor was not in the table behind `settle`.
pub record OpensBehind {A : Type 0} (settle : M (Unit {0})) (m : M A) : Type 0 where
  pub at : (s : Process) → CacheOk s → IsNew (settle s).1 (m s).1.history → CacheOk (m s).1

module _ {A : Type 0} where
  OpensOk-Keeps : (m : M A) → Keeps CacheOk m → OpensOk m
  OpensOk-Keeps m k = record { at = λ s v u. k.at s v }

  OpensOk-if : (b : Bool) (m n : M A) → OpensOk m → OpensOk n → OpensOk (if b then m else n)
  OpensOk-if true m n km kn = km
  OpensOk-if false m n km kn = kn

module _ {A B : Type 0} where
  -- The first part keeps every stable predicate.
  OpensOk-bind :
      (m : M A) (f : A → M B)
      → ((P : Process → Type 0) → IsStable P → Keeps P m)
      → ((a : A) → OpensOk (f a))
      → OpensOk (m >>= f)
  OpensOk-bind m f km kf = record { at = λ s v u. go s (m s).0 v u }
    where
      go :
          (s : Process) (r : Exit A)
          → CacheOk s
          → IsNew s (continue r f (m s).1).1.history
          → CacheOk (continue r f (m s).1).1
      go s (returned a) v u =
          (kf a).at (m s).1 ((km CacheOk CacheOk-IsStable).at s v)
            (λ fd e. (km _ (IsUnknown-IsStable fd)).at s (u fd e))
      go s terminated v u = (km CacheOk CacheOk-IsStable).at s v

module _ {A : Type 0} where
  OpensBehind-Keeps : (settle : M (Unit {0})) (m : M A) → Keeps CacheOk m → OpensBehind settle m
  OpensBehind-Keeps settle m k = record { at = λ s v u. k.at s v }

  OpensBehind-pure : (m : M A) → OpensOk m → OpensBehind (pure tt) m
  OpensBehind-pure m k = record { at = k.at }

  OpensBehind-if :
      (b : Bool) (settle settle' : M (Unit {0})) (m n : M A)
      → OpensBehind settle m
      → OpensBehind settle' n
      → OpensBehind (if b then settle else settle') (if b then m else n)
  OpensBehind-if true settle settle' m n km kn = km
  OpensBehind-if false settle settle' m n km kn = kn

  -- The settling comes first.
  OpensBehind-first :
      (settle : M (Unit {0})) (m : M A)
      → Keeps CacheOk settle
      → OpensOk m
      → OpensBehind settle (do settle; m)
  OpensBehind-first settle m ks km = record {
    at = λ s v u. go (settle s).0 (settle s).1 (ks.at s v) u;
  }
    where
      go :
          (r : Exit (Unit {0})) (s : Process)
          → CacheOk s
          → IsNew s (continue r (λ _. m) s).1.history
          → CacheOk (continue r (λ _. m) s).1
      go (returned a) s v u = km.at s v u
      go terminated s v u = v

module _ {A B : Type 0} where
  OpensBehind-bind :
      (m : M A) (f : A → M (Unit {0})) (g : A → M B)
      → Keeps CacheOk m
      → ((a : A) → OpensBehind (f a) (g a))
      → OpensBehind (m >>= f) (m >>= g)
  OpensBehind-bind m f g km k = record { at = λ s v u. go (m s).0 (m s).1 (km.at s v) u }
    where
      go :
          (r : Exit A) (s : Process)
          → CacheOk s
          → IsNew (continue r f s).1 (continue r g s).1.history
          → CacheOk (continue r g s).1
      go (returned a) s v u = (k a).at s v u
      go terminated s v u = v

module _ (env : Env) (path : Bytes) where
  -- The kernel's open, its test, and the registration.
  registered : ℤ → Option ℕ → FuseFileInfo → M (ℤ × FuseFileInfo)
  unfolding call open_done
  registered flags mode fi = do
    opened ← call env (Call.open_file path flags mode)
    if is_minus_one opened.ret
        then pure (neg (pos opened.errno), fi)
        else open_done env path fi opened.ret

  OpensOk-registered :
      (flags : ℤ) (mode : Option ℕ) (fi : FuseFileInfo) → OpensOk (registered flags mode fi)
  unfolding registered
  OpensOk-registered flags mode fi = record {
    at = λ s v u.
        let r = env.answer s.history (Call.open_file path flags mode) in
        elim (Bool-cases (is_minus_one r.ret)) [
          | inl bad ↦ rw bad v
          | inr good ↦
              rw good
                (register_file_open-IsConsistent r.ret path s.cmgr (u r.ret (simp (good) refl)) v)
        ];
  }

  OpensOk-open_local : (fi : FuseFileInfo) → OpensOk (open_local env path fi)
  unfolding open_local registered
  OpensOk-open_local fi =
      OpensOk-bind (Files.construct_dir_path env path) (λ _. registered fi.flags none fi)
        (λ P st. search stable_rules) (λ _. OpensOk-registered fi.flags none fi)

  OpensOk-fetch_and_open :
      (fi : FuseFileInfo) (info : StatInfo) (source : StatSelect)
      → OpensOk (fetch_and_open env path fi info source)
  unfolding fetch_and_open
  OpensOk-fetch_and_open fi info remote =
      OpensOk-bind (Client.download_file env (remove_mount_prefix path) info.stat_data.size) _
        (λ P st. search stable_rules)
        λ r.
          OpensOk-if (is_minus_one r.0.ret) (pure (neg r.0.server_errno, fi)) _
            (OpensOk-Keeps (pure (neg r.0.server_errno, fi)) (search keeps_rules))
            (OpensOk-bind (Files.save_to_cache env path r.1) _ (λ P st. search stable_rules)
              (λ _. OpensOk-open_local fi))
  OpensOk-fetch_and_open fi info _ = OpensOk-open_local fi

  OpensOk-return_or_open :
      (fi : FuseFileInfo) (info : StatInfo) (created : Option ℤ)
      → OpensOk (return_or_open env path fi info created)
  unfolding return_or_open
  OpensOk-return_or_open fi info (some ret) = OpensOk-Keeps (pure (ret, fi)) (search keeps_rules)
  OpensOk-return_or_open fi info none = OpensOk-fetch_and_open fi info info.source

  Keeps-ensure_remote :
      (P : Process → Type 0)
      → IsStable P
      → (fi : FuseFileInfo) (present : Bool) → Keeps P (ensure_remote env path fi present)
  unfolding ensure_remote
  Keeps-ensure_remote P st fi true = search stable_rules
  Keeps-ensure_remote P st fi false = search stable_rules

  OpensOk-open_body : (fi : FuseFileInfo) → OpensOk (open_body env path fi)
  unfolding open_body
  OpensOk-open_body fi =
      let cleared : FuseFileInfo = record fi { fh = 0 } in
      OpensOk-bind (should_fetch env path) _ (λ P st. search stable_rules)
        λ info.
          OpensOk-bind (ensure_remote env path cleared info.remote_present) _
            (λ P st. Keeps-ensure_remote P st cleared info.remote_present)
            (λ created. OpensOk-return_or_open cleared info created)

  -- The part of open in front of open_body: the injection, and the delayed writebacks of the file.
  unfoldable pub settle_first : M (Unit {0})
  unfolding on_file_op
  settle_first = do
    ret ← error_inject env path op_open
    if eq_ℤ ret noop_code
        then pure tt
        else if eq_ℤ ret reorder_writeback_code
        then on_file_op env path
        else pure tt

  -- From a consistent cache table, open leads to a consistent one on every path through it, with
  -- any injection and any delayed writebacks, if the descriptor that the kernel opens for it was not
  -- in the table when the delayed writebacks were done.
  pub unreliable_open-OpensBehind :
      (fi : FuseFileInfo) → OpensBehind settle_first (unreliable_open env path fi)
  unfolding unreliable_open settle_first
  unreliable_open-OpensBehind fi =
      OpensBehind-bind (error_inject env path op_open) _ _ (search stable_rules) λ ret.
        OpensBehind-if (eq_ℤ ret noop_code) _ _ (pure (pos 0, fi)) _
          (OpensBehind-Keeps (pure tt) (pure (pos 0, fi)) (search keeps_rules))
          (OpensBehind-if (eq_ℤ ret reorder_writeback_code) _ _ _ _
            (OpensBehind-first (on_file_op env path) _ (Keeps-on_file_op env CacheOk-IsStable path)
              (OpensOk-open_body fi))
            (OpensBehind-pure _ (
              OpensOk-if (not (is_zero ret)) (pure (ret, fi)) _
                (OpensOk-Keeps (pure (ret, fi)) (search keeps_rules)) (OpensOk-open_body fi))))

  create_body : ℤ → FuseFileInfo → M (ℤ × FuseFileInfo)
  unfolding registered
  create_body mode fi = do
    response ← Client.create env (remove_mount_prefix path) mode fi.flags
    if is_minus_one response.ret
        then pure (neg response.server_errno, fi)
        else (do Files.construct_dir_path env path; registered fi.flags (some 511) fi)

  OpensOk-create_body : (mode : ℤ) (fi : FuseFileInfo) → OpensOk (create_body mode fi)
  unfolding create_body
  OpensOk-create_body mode fi =
      OpensOk-bind (Client.create env (remove_mount_prefix path) mode fi.flags) _
        (λ P st. search stable_rules)
        λ response.
          OpensOk-if (is_minus_one response.ret) (pure (neg response.server_errno, fi)) _
            (OpensOk-Keeps (pure (neg response.server_errno, fi)) (search keeps_rules))
            (OpensOk-bind (Files.construct_dir_path env path) _ (λ P st. search stable_rules)
              (λ _. OpensOk-registered fi.flags (some 511) fi))

  -- The same of create.
  pub unreliable_create-OpensOk :
      (mode : ℤ) (fi : FuseFileInfo) → OpensOk (unreliable_create env path mode fi)
  unfolding unreliable_create guarded create_body
  unreliable_create-OpensOk mode fi =
      OpensOk-bind (error_inject env path op_creat) _ (λ P st. search stable_rules)
        λ ret.
          OpensOk-if (eq_ℤ ret noop_code) (pure (pos 0, fi)) _
            (OpensOk-Keeps (pure (pos 0, fi)) (search keeps_rules))
            (OpensOk-if (not (is_zero ret)) (pure (ret, fi)) _
              (OpensOk-Keeps (pure (ret, fi)) (search keeps_rules)) (OpensOk-create_body mode fi))
