-- ===== src/Concert/Loss.antt =====
-- A performance of wowAB/WowConcert.H over a network that loses a datagram, as UDP may: nothing there
-- sends it again.
use wow_so_distributed.Base.{
  ℕ, ◌+◌, ◌*◌, ◌<◌, ◌≡◌, ◌≢◌, arith, Bool, true, false, Option, none, some, List, [], ◌∷◌, length,
  int_eq, Option-cases, inl, inr, ap, sym, ◌∙◌, if◌then◌else◌,
}
use mathlib.Core.Option
use wow_so_distributed.Base.Dict
use wow_so_distributed.Concert.Orchestra.{finished}
use wow_so_distributed.Concert.Stage.{Stage, Link, deliver, deliver_all, opening}
use wow_so_distributed.Concert.Cue.{Cue, next, stage, IsComplete, is_open}
use wow_so_distributed.Concert.Show.{
  Roll, nobody, one, two, Act, enlisting, playing, go_on, stage_of, IsSound, deliver-stage_of,
}
use wow_so_distributed.Concert.Course.{left, deliver_all-IsSound, finished-left, go_on-IsSound}

-- The stage without what is on the way on a link.
abbrev pub blank : Link → Stage → Stage
blank Link.from_a st = record st { from_a = [] }
blank Link.from_b st = record st { from_b = [] }
blank Link.from_s st = record st { from_s = [] }
blank Link.to_a st = record st { to_a = [] }
blank Link.to_b st = record st { to_b = [] }
blank Link.to_s st = record st { to_s = [] }

abbrev pub is_link : Link → Link → Bool
is_link Link.from_a Link.from_a = true
is_link Link.from_b Link.from_b = true
is_link Link.from_s Link.from_s = true
is_link Link.to_a Link.to_a = true
is_link Link.to_b Link.to_b = true
is_link Link.to_s Link.to_s = true
is_link _ _ = false

-- The step of an act on which link `l` has lost its datagram.
abbrev pub go_on_without : Link → Link → Act → Option Act
go_on_without l l' x = if is_link l l' then none else go_on l' x

deliver-blank_playing :
    (l l' : Link) (c : _) (x : Cue)
    → IsComplete c
    → is_open x.0 ≡ true
    → next l x ≢ none
    → deliver l' (blank l (stage c x))
      ≡ Option.map (λ y. blank l (stage_of y)) (go_on_without l l' (playing c x))
unfolding deliver stage stage_of
deliver-blank_playing l l' c (scene, n) known on lost = ground (arith, known, on, lost)

deliver-blank_enlisting :
    (l l' : Link) (roll : Roll) (n : ℕ)
    → IsSound (enlisting roll n)
    → go_on l (enlisting roll n) ≢ none
    → deliver l' (blank l (stage_of (enlisting roll n)))
      ≡ Option.map (λ y. blank l (stage_of y)) (go_on_without l l' (enlisting roll n))
unfolding deliver stage stage_of Dict.get Dict.put
deliver-blank_enlisting l l' nobody n h lost = ground (arith, h, lost)
deliver-blank_enlisting l l' (one m) n h lost = ground (arith, h, lost)
deliver-blank_enlisting l l' (two m1 m2) n h lost = ground (arith, h, lost)

-- The others go on as if the datagram were still on the way.
deliver-blank :
    (l l' : Link) (x : Act)
    → IsSound x
    → go_on l x ≢ none
    → deliver l' (blank l (stage_of x))
      ≡ Option.map (λ y. blank l (stage_of y)) (go_on_without l l' x)
unfolding stage_of
deliver-blank l l' (enlisting roll n) h lost = deliver-blank_enlisting l l' roll n h lost
deliver-blank l l' (playing c x) h lost =
    deliver-blank_playing l l' c x h.0 h.1 (λ e. lost (ap (Option.map (playing c)) e))

-- And what was lost stays awaited.
next-next :
    (l l' : Link) (x y : Cue)
    → is_open x.0 ≡ true
    → is_link l l' ≡ false
    → next l x ≢ none
    → next l' x ≡ some y
    → next l y ≢ none
next-next l l' (scene, n) y on other lost step e = ground (arith, on, other, lost, step, e)

go_on-enlisting :
    (l l' : Link) (roll : Roll) (n : ℕ) (y : Act)
    → IsSound (enlisting roll n)
    → is_link l l' ≡ false
    → go_on l (enlisting roll n) ≢ none
    → go_on l' (enlisting roll n) ≡ some y
    → go_on l y ≢ none
go_on-enlisting l l' nobody n y h other lost step e = ground (arith, h, other, lost, step, e)
go_on-enlisting l l' (one m) n y h other lost step e = ground (arith, h, other, lost, step, e)
go_on-enlisting l l' (two m1 m2) n y h other lost step e = ground (arith, h, other, lost, step, e)

go_on-go_on :
    (l l' : Link) (x y : Act)
    → IsSound x
    → is_link l l' ≡ false
    → go_on l x ≢ none
    → go_on l' x ≡ some y
    → go_on l y ≢ none
go_on-go_on l l' (enlisting roll n) y h other lost step =
    go_on-enlisting l l' roll n y h other lost step
go_on-go_on l l' (playing c x) y h other lost step = elim (Option-cases (next l' x)) [
  | inl nothing ↦ cc
  | inr (x', moved) ↦
      let same : playing c x' ≡ y = cc in
      let waits = next-next l l' x x' h.1 other (λ e. lost (ap (Option.map (playing c)) e)) moved in
      rw (← same) (λ e. waits (ground (arith, e)))
]

-- The acts that go on when link `l` has lost its datagram.
deliver_all-blank :
    (ls : List Link) (l : Link) (x : Act) (t : Stage)
    → IsSound x
    → go_on l x ≢ none
    → deliver_all ls (blank l (stage_of x)) ≡ some t
    → (y : Act) × IsSound y
      × (go_on l y ≢ none)
      × (t ≡ blank l (stage_of y))
      × (length ls + left y ≡ left x)
unfolding deliver_all
deliver_all-blank [] l x t h lost e =
    let same : t ≡ blank l (stage_of x) = cc in (x, h, lost, same, omega arith)
deliver_all-blank (l' ∷ ls) l x t h lost e = elim (Option-cases (go_on_without l l' x)) [
  | inl nothing ↦
      let stuck : deliver l' (blank l (stage_of x)) ≡ none =
        rw (deliver-blank l l' x h lost, nothing) in
      cc
  | inr (y, step) ↦
      let moved : deliver l' (blank l (stage_of x)) ≡ some (blank l (stage_of y)) =
        rw (deliver-blank l l' x h lost, step) in
      let other : is_link l l' ≡ false = ground (arith, step) in
      let went : go_on l' x ≡ some y = ground (arith, step) in
      let (sound, less) = go_on-IsSound l' x y h went in
      let rest : deliver_all ls (blank l (stage_of y)) ≡ some t = cc in
      let (z, good, waits, same, left_z) =
        deliver_all-blank ls l y t sound (go_on-go_on l l' x y h other lost went) rest in
      (z, good, waits, same, omega arith)
]

-- The network loses what is on the way on a link; `none` where that is nothing.
unfoldable pub lose : Link → Stage → Option Stage
unfolding deliver
lose l t = Option.map (λ _. blank l t) (deliver l t)

lose_is : (l : Link) (t lacking : Stage) → lose l t ≡ some lacking → lacking ≡ blank l t
unfolding lose
lose_is l t lacking loss = elim (Option-cases (deliver l t)) [
  | inl nothing ↦ cc
  | inr (t', there) ↦ cc
]

blank-orchestra : (l : Link) (t : Stage) → (blank l t).orchestra ≡ t.orchestra
blank-orchestra l t = ground arith

-- Where a datagram is awaited, the end is not reached.
awaited_left : (l : Link) (y : Act) → IsSound y → go_on l y ≢ none → 0 < left y
awaited_left l y sound waits = elim (Option-cases (go_on l y)) [
  | inl nothing ↦ absurd (waits nothing)
  | inr (z, step) ↦ let (good, less) = go_on-IsSound l y z sound step in omega (arith, less)
]

lose_awaited :
    (l : Link) (x : Act) (lacking : Stage)
    → IsSound x
    → lose l (stage_of x) ≡ some lacking
    → go_on l x ≢ none
unfolding lose
lose_awaited l x lacking sound loss nothing =
    let idle : deliver l (stage_of x) ≡ none = rw (deliver-stage_of l x sound, nothing) in cc

-- When one datagram is lost, whichever it is, after whatever schedule of deliveries from the
-- registrations on, the orchestrator has left perform( rounds ) after no schedule of further
-- deliveries, and together there are less than 9 + 10 * rounds of them: the performance comes to a
-- stop and never to its end, as nothing is sent again.
pub lost_datagram_blocks :
    (rounds : ℕ) (ls ms : List Link) (l : Link) (t lacking u : Stage)
    → deliver_all ls (opening rounds) ≡ some t
    → lose l t ≡ some lacking
    → deliver_all ms lacking ≡ some u
    → (u.orchestra.phase ≢ finished) × (length ls + length ms < 9 + 10 * rounds)
unfolding lose stage_of
lost_datagram_blocks rounds ls ms l t lacking u before loss after =
    let (x, sound, same, count) = deliver_all-IsSound ls (enlisting nobody rounds) t tt before in
    let loss' : lose l (stage_of x) ≡ some lacking = rw (← same) loss in
    let left_out : lacking ≡ blank l (stage_of x) = lose_is l (stage_of x) lacking loss' in
    let (y, good, waits, end, rest) =
      deliver_all-blank ms l x u sound (lose_awaited l x lacking sound loss')
        (rw (← left_out) after) in
    let more = awaited_left l y good waits in
    (
      λ over.
          let e : (stage_of y).orchestra.phase ≡ finished =
            ap (λ o. o.phase) (sym (blank-orchestra l (stage_of y))) ∙ rw (← end) over in
          let none_left = (finished-left y good).1 e in omega arith,
      omega arith,
    )
