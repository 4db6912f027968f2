-- ===== src/Concert/Course.antt =====
-- How far a performance of wowAB/WowConcert.H has come, and that it comes to its end.
use wow_so_distributed.Base.{
  ℕ, suc, ◌+◌, ◌*◌, ◌<◌, ◌≡◌, ◌↔◌, ◌≢◌, inl, inr, arith, true, none, some, List, [], ◌∷◌, int_eq,
  length, Option-cases, if◌then◌else◌,
}
use mathlib.Core.Path.{subst}
use wow_so_distributed.Base.Dict
use wow_so_distributed.Concert.Orchestra.{finished}
use wow_so_distributed.Concert.Stage.{Stage, Link, deliver, deliver_all}
use wow_so_distributed.Concert.Cue.{
  Cue, Status, coming, answered, heard, Scene, gathering, triggering, observing, resetting, over,
  next, is_open, stage,
}
use wow_so_distributed.Concert.Show.{
  Member, member_a, member_b, member_s, Roll, nobody, one, two, is_in, pending, Act, enlisting,
  playing, enlist, go_on, stage_of, IsSound, deliver-stage_of,
}

-- The deliveries that are left: of each participant its reply, and the message before it.
abbrev pub load : Status → ℕ
load coming = 2
load answered = 1
load heard = 0

abbrev pub left_in : Cue → ℕ
left_in (gathering a b s, n) = load a + load b + load s + 10 * n
left_in (triggering a b, n) = load a + load b + 6 + 10 * n
left_in (observing s, n) = load s + 4 + 10 * n
left_in (resetting a b, n) = load a + load b + 10 * n
left_in (over, n) = 0

abbrev pub left : Act → ℕ
left (enlisting roll n) = pending roll + 6 + 10 * n
left (playing c x) = left_in x

enlist-IsSound :
    (m : Member) (roll : Roll) (n : ℕ) (y : Act)
    → IsSound (enlisting roll n)
    → enlist m roll n ≡ some y
    → IsSound y × (suc (left y) ≡ left (enlisting roll n))
unfolding Dict.get
enlist-IsSound m nobody n y h e = ground (arith, h, e)
enlist-IsSound m (one m1) n y h e = ground (arith, h, e)
enlist-IsSound m (two m1 m2) n y h e = ground (arith, h, e)

next_keeps_open :
    (l : Link) (x y : Cue)
    → is_open x.0 ≡ true
    → next l x ≡ some y
    → (is_open y.0 ≡ true) × (suc (left_in y) ≡ left_in x)
next_keeps_open l (scene, n) y h e = ground (arith, h, e)

pub go_on-IsSound :
    (l : Link) (x y : Act) → IsSound x → go_on l x ≡ some y → IsSound y × (suc (left y) ≡ left x)
go_on-IsSound Link.from_a (enlisting roll n) y h e = enlist-IsSound member_a roll n y h e
go_on-IsSound Link.from_b (enlisting roll n) y h e = enlist-IsSound member_b roll n y h e
go_on-IsSound Link.from_s (enlisting roll n) y h e = enlist-IsSound member_s roll n y h e
go_on-IsSound Link.to_a (enlisting roll n) y h e = cc
go_on-IsSound Link.to_b (enlisting roll n) y h e = cc
go_on-IsSound Link.to_s (enlisting roll n) y h e = cc
go_on-IsSound l (playing c x) y (known, on) e = elim (Option-cases (next l x)) [
  | inl nothing ↦ cc
  | inr (x', step) ↦
      let (on', less) = next_keeps_open l x x' on step in
      let same : playing c x' ≡ y = cc in
      subst (λ z. IsSound z × (suc (left z) ≡ left_in x)) same ((known, on'), less)
]

-- Where a schedule of deliveries leads, and how many of them are left.
pub deliver_all-IsSound :
    (ls : List Link) (x : Act) (t : Stage)
    → IsSound x
    → deliver_all ls (stage_of x) ≡ some t
    → (y : Act) × IsSound y × (t ≡ stage_of y) × (length ls + left y ≡ left x)
unfolding deliver_all
deliver_all-IsSound [] x t h e = let same : t ≡ stage_of x = cc in (x, h, same, omega arith)
deliver_all-IsSound (l ∷ ls) x t h e = elim (Option-cases (go_on l x)) [
  | inl nothing ↦
      let stuck : deliver l (stage_of x) ≡ none = rw (deliver-stage_of l x h, nothing) in cc
  | inr (y, step) ↦
      let moved : deliver l (stage_of x) ≡ some (stage_of y) = rw (deliver-stage_of l x h, step) in
      let (sound, less) = go_on-IsSound l x y h step in
      let rest : deliver_all ls (stage_of y) ≡ some t = cc in
      let (z, good, same, left_z) = deliver_all-IsSound ls y t sound rest in
      (z, good, same, omega arith)
]

-- A link that has a datagram, where deliveries are left.
abbrev side : Link → Link → Status → Link
side to from coming = to
side to from _ = from

abbrev busy_in : Scene → Link
busy_in (gathering heard heard s) = side Link.to_s Link.from_s s
busy_in (gathering heard b s) = side Link.to_b Link.from_b b
busy_in (gathering a b s) = side Link.to_a Link.from_a a
busy_in (triggering heard b) = side Link.to_b Link.from_b b
busy_in (triggering a b) = side Link.to_a Link.from_a a
busy_in (observing s) = side Link.to_s Link.from_s s
busy_in (resetting heard b) = side Link.to_b Link.from_b b
busy_in (resetting a b) = side Link.to_a Link.from_a a
busy_in over = Link.to_a

abbrev pub busy : Act → Link
busy (enlisting roll n) =
    if is_in member_a roll
    then (if is_in member_b roll then Link.from_s else Link.from_b)
    else Link.from_a
busy (playing c x) = busy_in x.0

next-busy_in : (x : Cue) → is_open x.0 ≡ true → 0 < left_in x → next (busy_in x.0) x ≢ none
next-busy_in (scene, n) on more e = ground (arith, on, e)

pub go_on-busy : (x : Act) → IsSound x → 0 < left x → go_on (busy x) x ≢ none
go_on-busy (enlisting nobody n) h more e = ground (arith, h, e)
go_on-busy (enlisting (one m) n) h more e = ground (arith, h, e)
go_on-busy (enlisting (two m1 m2) n) h more e = ground (arith, h, e)
go_on-busy (playing c x) h more e = next-busy_in x h.1 more (ground (arith, e))

pub finished-left : (x : Act) → IsSound x → (left x ≡ 0) ↔ ((stage_of x).orchestra.phase ≡ finished)
unfolding stage_of stage
finished-left (enlisting roll n) h = (ground arith, ground arith)
finished-left (playing c (scene, n)) h = (ground (arith, h.1), ground (arith, h.1))
