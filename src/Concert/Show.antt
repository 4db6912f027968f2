-- ===== src/Concert/Show.antt =====
-- The whole performance of wowAB/WowConcert.H, from the registrations on: the cues with the roll
-- call in front of them, and what every schedule of deliveries comes to.
use wow_so_distributed.Base.{
  ℕ, ◌≡◌, arith, Bool, true, false, ◌||◌, Option, none, some, List, [], ◌∷◌, ◌++◌, pos, int_eq,
  if◌then◌else◌,
}
use mathlib.Core.Option
use wow_so_distributed.Base.Dict
use wow_so_distributed.Concert.{Contacts, sink, node_a, node_b, registration}
use wow_so_distributed.Concert.Orchestra.{registering}
use wow_so_distributed.Concert.Participant.{client_ack, sink_ack}
use wow_so_distributed.Concert.Stage.{Stage, Link, deliver}
use wow_so_distributed.Concert.Cue.{
  Cue, coming, gathering, next, is_open, stage, IsComplete, deliver-stage,
}

pub data Member : Type 0 where
  member_a member_b member_s : Member

abbrev pub bit : Member → ℕ
bit member_a = node_a
bit member_b = node_b
bit member_s = sink

abbrev pub is_same : Member → Member → Bool
is_same member_a member_a = true
is_same member_b member_b = true
is_same member_s member_s = true
is_same _ _ = false

-- Who is registered, in the order of their coming.
pub data Roll : Type 0 where
  nobody : Roll
  one : Member → Roll
  two : Member → Member → Roll

abbrev pub is_in : Member → Roll → Bool
is_in m nobody = false
is_in m (one m1) = is_same m m1
is_in m (two m1 m2) = is_same m m1 || is_same m m2

abbrev pub contact : Member → Contacts
contact m = (pos (bit m), bit m) ∷ []

abbrev pub contacts_of : Roll → Contacts
contacts_of nobody = []
contacts_of (one m) = contact m
contacts_of (two m1 m2) = contact m1 ++ contact m2

abbrev pub pending : Roll → ℕ
pending nobody = 3
pending (one _) = 2
pending (two _ _) = 1

pub data Act : Type 0 where
  enlisting : Roll → ℕ → Act
  playing : Contacts → Cue → Act

abbrev pub enroll : Member → Roll → ℕ → Act
enroll m nobody n = enlisting (one m) n
enroll m (one m1) n = enlisting (two m1 m) n
enroll m (two m1 m2) n =
    playing (contact m1 ++ contact m2 ++ contact m) (gathering coming coming coming, n)

abbrev pub enlist : Member → Roll → ℕ → Option Act
enlist m roll n = if is_in m roll then none else some (enroll m roll n)

abbrev pub go_on : Link → Act → Option Act
go_on l (playing c x) = Option.map (playing c) (next l x)
go_on Link.from_a (enlisting roll n) = enlist member_a roll n
go_on Link.from_b (enlisting roll n) = enlist member_b roll n
go_on Link.from_s (enlisting roll n) = enlist member_s roll n
go_on _ (enlisting roll n) = none

abbrev pub registration_mail : Member → Roll → List ℕ
registration_mail m roll = if is_in m roll then [] else registration ∷ []

unfoldable pub stage_of : Act → Stage
stage_of (enlisting roll n) = record {
  orchestra = record {
    contacts = contacts_of roll;
    phase = registering (pending roll);
    cmask = 0;
    rounds = n;
  };
  a = client_ack;
  b = client_ack;
  s = sink_ack;
  to_a = [];
  to_b = [];
  to_s = [];
  from_a = registration_mail member_a roll;
  from_b = registration_mail member_b roll;
  from_s = registration_mail member_s roll;
}
stage_of (playing c x) = stage c x

-- Nobody is registered twice; when all are, a wait that is on has not heard everyone.
abbrev pub IsSound : Act → Type 0
IsSound (enlisting (two m1 m2) n) = is_same m1 m2 ≡ false
IsSound (enlisting _ n) = Unit
IsSound (playing c x) = IsComplete c × is_open x.0 ≡ true

deliver-enlisting :
    (l : Link) (roll : Roll) (n : ℕ)
    → IsSound (enlisting roll n)
    → deliver l (stage_of (enlisting roll n)) ≡ Option.map stage_of (go_on l (enlisting roll n))
unfolding deliver stage_of stage Dict.put Dict.get
deliver-enlisting l nobody n h = ground (arith, h)
deliver-enlisting l (one m) n h = ground (arith, h)
deliver-enlisting l (two m1 m2) n h = ground (arith, h)

-- A delivery on the stage is the act's next step.
pub deliver-stage_of :
    (l : Link) (x : Act) → IsSound x → deliver l (stage_of x) ≡ Option.map stage_of (go_on l x)
unfolding stage_of
deliver-stage_of l (enlisting roll n) h = deliver-enlisting l roll n h
deliver-stage_of l (playing c x) h = ground (arith, deliver-stage l c x h.0)
