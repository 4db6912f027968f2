-- ===== src/Concert/Masks.antt =====
-- waitMsgSubset of wowAB/WowConcert.H against what it is for: to wait until every participant of the
-- mask has sent the message.
use Prim.Native.Nat.{bit_or}
use wow_so_distributed.Base.{
  ℕ, ◌+◌, ◌==◌, ◌≡◌, ◌≢◌, ◌⊎◌, inl, inr, Bool, true, false, ◌||◌, ◌&&◌, not, none, some, List, [],
  ◌∷◌, ◌++◌, exists, if◌then◌else◌, refl, arith, ap, ◌∙◌, sym, Bool-cases,
}
use wow_so_distributed.Concert.{
  Datagram, is_message, is_accepted, wait_msg_subset, sink, node_a, node_b,
}

-- A set of participants: the sink, NODE_A, NODE_B.
pub record Party : Type 0 where
  pub s : Bool
  pub a : Bool
  pub b : Bool

-- The set as a mask.
abbrev pub mask : Party → ℕ
mask p = (if p.s then 1 else 0) + (if p.a then 2 else 0) + (if p.b then 4 else 0)

abbrev pub nobody : Party
nobody = record { s = false; a = false; b = false }

-- A message of the kind from the participant.
abbrev pub is_from : ℕ → ℕ → Datagram → Bool
is_from mtype id d = is_message d && (d.kind == mtype && d.origin == id)

-- Every participant of the set is in the other one, or has sent a message of the kind.
abbrev pub all_heard : ℕ → Party → Party → List Datagram → Bool
all_heard mtype wanted p ds =
    (not wanted.s || (p.s || exists (is_from mtype sink) ds))
    && ((not wanted.a || (p.a || exists (is_from mtype node_a) ds))
        && (not wanted.b || (p.b || exists (is_from mtype node_b) ds)))

-- The datagrams come from participants.
abbrev pub AllFromParty : List Datagram → Type 0
AllFromParty [] = Unit
AllFromParty (d ∷ ds) = ((d.origin ≡ 1) ⊎ ((d.origin ≡ 2) ⊎ (d.origin ≡ 4))) × AllFromParty ds

-- The set after one datagram.
abbrev heard : ℕ → Party → Party → Datagram → Party
heard mtype wanted p d = record {
  s = p.s || (wanted.s && is_from mtype sink d);
  a = p.a || (wanted.a && is_from mtype node_a d);
  b = p.b || (wanted.b && is_from mtype node_b d);
}

abbrev IsWithin : Party → Party → Type 0
IsWithin p wanted =
    (p.s ≡ true → wanted.s ≡ true) × (p.a ≡ true → wanted.a ≡ true) × (p.b ≡ true → wanted.b ≡ true)

mask-heard :
    (mtype : ℕ) (wanted p : Party) (d : Datagram)
    → (d.origin ≡ 1) ⊎ ((d.origin ≡ 2) ⊎ (d.origin ≡ 4))
    → (if is_accepted mtype (mask wanted) d then bit_or (mask p) d.origin else mask p)
      ≡ mask (heard mtype wanted p d)
unfolding is_accepted
mask-heard mtype wanted p d from = ground (arith, from)

IsWithin-heard :
    (mtype : ℕ) (wanted p : Party) (d : Datagram)
    → IsWithin p wanted
    → IsWithin (heard mtype wanted p d) wanted
IsWithin-heard mtype wanted p d h = ground (arith, h)

all_heard-cons :
    (mtype : ℕ) (wanted p : Party) (d : Datagram) (ds : List Datagram)
    → all_heard mtype wanted p (d ∷ ds) ≡ all_heard mtype wanted (heard mtype wanted p d) ds
all_heard-cons mtype wanted p d ds = ground arith

-- The test of the loop.
full_lem :
    (mtype : ℕ) (wanted p : Party)
    → IsWithin p wanted
    → (mask p == mask wanted) ≡ all_heard mtype wanted p []
full_lem mtype wanted p h = ground (arith, h)

wait_step :
    (mtype : ℕ) (wanted p : Party) (d : Datagram) (ds : List Datagram)
    → (d.origin ≡ 1) ⊎ ((d.origin ≡ 2) ⊎ (d.origin ≡ 4))
    → (mask p == mask wanted) ≡ false
    → wait_msg_subset mtype (mask wanted) (mask p) (d ∷ ds)
      ≡ wait_msg_subset mtype (mask wanted) (mask (heard mtype wanted p d)) ds
unfolding wait_msg_subset
wait_step mtype wanted p d ds from more = elim (Bool-cases (is_accepted mtype (mask wanted) d)) [
  | inl hit ↦
      let e : bit_or (mask p) d.origin ≡ mask (heard mtype wanted p d) =
        rw (← mask-heard mtype wanted p d from, hit) refl in
      rw (more, hit, e)
  | inr miss ↦
      let e : mask p ≡ mask (heard mtype wanted p d) =
        rw (← mask-heard mtype wanted p d from, miss) refl in
      rw (more, miss, e)
]

-- The datagrams up to the one with which everybody of the set has been heard, split off.
pub record IsFirst (mtype : ℕ) (wanted p : Party) (ds rest : List Datagram) : Type 0 where
  pub used : List Datagram
  pub split : ds ≡ used ++ rest
  pub complete : all_heard mtype wanted p used ≡ true
  pub not_before :
      (before : List Datagram) (d : Datagram) (others : List Datagram)
      → used ≡ before ++ d ∷ others
      → all_heard mtype wanted p before ≡ false

IsFirst-now :
    (mtype : ℕ) (wanted p : Party) (ds : List Datagram)
    → all_heard mtype wanted p [] ≡ true
    → IsFirst mtype wanted p ds ds
IsFirst-now mtype wanted p ds full = record {
  used = [];
  split = refl;
  complete = full;
  not_before = λ before d others e.
      elim before as (λ l. [] ≡ l ++ d ∷ others → all_heard mtype wanted p l ≡ false) [
        | [] ↦ λ e. cc
        | x ∷ xs ↦ λ e. cc
      ]
        e;
}

IsFirst-later :
    (mtype : ℕ) (wanted p : Party) (d : Datagram) (ds rest : List Datagram)
    → all_heard mtype wanted p [] ≡ false
    → IsFirst mtype wanted (heard mtype wanted p d) ds rest
    → IsFirst mtype wanted p (d ∷ ds) rest
IsFirst-later mtype wanted p d ds rest more first = record {
  used = d ∷ first.used;
  split = ap (λ l. d ∷ l) first.split;
  complete = all_heard-cons mtype wanted p d first.used ∙ first.complete;
  not_before = before;
}
  where
    before :
        (xs : List Datagram) (y : Datagram) (others : List Datagram)
        → d ∷ first.used ≡ xs ++ y ∷ others
        → all_heard mtype wanted p xs ≡ false
    before [] y others e = more
    before (x ∷ xs) y others e =
        let same : d ≡ x = cc in
        let tail : first.used ≡ xs ++ y ∷ others = cc in
        rw (← same) (all_heard-cons mtype wanted p d xs ∙ first.not_before xs y others tail)

some-injective : (xs ys : List Datagram) → some xs ≡ some ys → xs ≡ ys
some-injective xs ys e = cc

wait-IsFirst :
    (mtype : ℕ) (wanted p : Party) (ds rest : List Datagram)
    → IsWithin p wanted
    → AllFromParty ds
    → wait_msg_subset mtype (mask wanted) (mask p) ds ≡ some rest
    → IsFirst mtype wanted p ds rest
unfolding wait_msg_subset
wait-IsFirst mtype wanted p [] rest within from h = elim (Bool-cases (mask p == mask wanted)) [
  | inl full ↦
      let e : [] ≡ rest = some-injective [] rest (sym (rw full) ∙ h) in
      rw (← e) (IsFirst-now mtype wanted p [] (sym (full_lem mtype wanted p within) ∙ full))
  | inr more ↦ let e : none ≡ some rest = sym (rw more) ∙ h in cc
]
wait-IsFirst mtype wanted p (d ∷ ds) rest within from h =
    elim (Bool-cases (mask p == mask wanted)) [
      | inl full ↦
          let e : d ∷ ds ≡ rest = some-injective (d ∷ ds) rest (sym (rw full) ∙ h) in
          rw (← e)
            (IsFirst-now mtype wanted p (d ∷ ds) (sym (full_lem mtype wanted p within) ∙ full))
      | inr more ↦
          IsFirst-later mtype wanted p d ds rest (sym (full_lem mtype wanted p within) ∙ more) (
            wait-IsFirst mtype wanted (heard mtype wanted p d) ds rest
              (IsWithin-heard mtype wanted p d within) from.1
              (sym (wait_step mtype wanted p d ds from.0 more) ∙ h))
    ]

wait_ends :
    (mtype : ℕ) (wanted p : Party) (ds : List Datagram)
    → IsWithin p wanted
    → AllFromParty ds
    → all_heard mtype wanted p ds ≡ true
    → wait_msg_subset mtype (mask wanted) (mask p) ds ≢ none
unfolding wait_msg_subset
wait_ends mtype wanted p [] within from h e =
    let full : (mask p == mask wanted) ≡ true = full_lem mtype wanted p within ∙ h in
    let done : some [] ≡ none = sym (rw full) ∙ e in cc
wait_ends mtype wanted p (d ∷ ds) within from h e = elim (Bool-cases (mask p == mask wanted)) [
  | inl full ↦ let done : some (d ∷ ds) ≡ none = sym (rw full) ∙ e in cc
  | inr more ↦
      wait_ends mtype wanted (heard mtype wanted p d) ds (IsWithin-heard mtype wanted p d within)
        from.1 (sym (all_heard-cons mtype wanted p d ds) ∙ h)
        (sym (wait_step mtype wanted p d ds from.0 more) ∙ e)
]

-- waitMsgSubset, called with the mask of any set of the three participants, on datagrams that come
-- from participants: when it ends, then with the first datagram with which it has received a message
-- of the kind from everyone of the set, whoever else has sent what in between, and what comes behind
-- that is left; and when everyone of the set sends a message of the kind, it ends.
pub wait_msg_subset-IsFirst :
    (mtype : ℕ) (wanted : Party) (ds : List Datagram)
    → AllFromParty ds
    → ((rest : List Datagram)
        → wait_msg_subset mtype (mask wanted) 0 ds ≡ some rest
        → IsFirst mtype wanted nobody ds rest)
      × (all_heard mtype wanted nobody ds ≡ true → wait_msg_subset mtype (mask wanted) 0 ds ≢ none)
wait_msg_subset-IsFirst mtype wanted ds from =
    let none_in : IsWithin nobody wanted = (λ e. cc, λ e. cc, λ e. cc) in
    (
      λ rest h. wait-IsFirst mtype wanted nobody ds rest none_in from h,
      λ h. wait_ends mtype wanted nobody ds none_in from h,
    )
