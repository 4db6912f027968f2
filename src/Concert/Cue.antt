-- ===== src/Concert/Cue.antt =====
-- The performance of wowAB/WowConcert.H from the ACKs on, told in short: which wait is on, and of
-- each participant whether its message is on the way, its reply is, or its reply is heard.
use Prim.Native.Nat.{bit_or}
use wow_so_distributed.Base.{
  ℕ, zero, suc, ◌≡◌, arith, Option, none, some, List, [], ◌∷◌, pos, int_eq, Bool, true, false,
}
use mathlib.Core.Option
use wow_so_distributed.Base.Dict
use wow_so_distributed.Concert.{
  Contacts, sink, node_a, node_b, reset, trigger, ready, ack, go, done,
}
use wow_so_distributed.Concert.Orchestra.{
  WowOrchestra, all_ready, nodes_done, sink_ready, nodes_ready, finished,
}
use wow_so_distributed.Concert.Participant.{
  client_ack, client_trigger, client_reset, sink_ack, sink_go,
}
use wow_so_distributed.Concert.Stage.{Stage, Link, deliver}

pub data Status : Type 0 where
  coming answered heard : Status

pub data Scene : Type 0 where
  gathering : Status → Status → Status → Scene
  triggering : Status → Status → Scene
  observing : Status → Scene
  resetting : Status → Status → Scene
  over : Scene

-- The scene, and the rounds that are left behind it.
abbrev pub Cue : Type 0
Cue = Scene × ℕ

abbrev pub turn : ℕ → Cue
turn zero = (over, 0)
turn (suc rounds) = (triggering coming coming, rounds)

-- The wait that is on has not heard everyone.
abbrev pub is_open : Scene → Bool
is_open (gathering heard heard heard) = false
is_open (triggering heard heard) = false
is_open (observing heard) = false
is_open (resetting heard heard) = false
is_open _ = true

-- A wait that has heard everyone is over.
abbrev pub settle : Cue → Cue
settle (gathering heard heard heard, rounds) = turn rounds
settle (triggering heard heard, rounds) = (observing coming, rounds)
settle (observing heard, rounds) = (resetting coming coming, rounds)
settle (resetting heard heard, rounds) = turn rounds
settle cue = cue

abbrev pub reply : Status → Option Status
reply coming = some answered
reply _ = none

abbrev pub arrive : Status → Option Status
arrive answered = some heard
arrive _ = none

abbrev pub next : Link → Cue → Option Cue
next Link.to_a (gathering a b s, n) = Option.map (λ a'. (gathering a' b s, n)) (reply a)
next Link.to_a (triggering a b, n) = Option.map (λ a'. (triggering a' b, n)) (reply a)
next Link.to_a (resetting a b, n) = Option.map (λ a'. (resetting a' b, n)) (reply a)
next Link.to_b (gathering a b s, n) = Option.map (λ b'. (gathering a b' s, n)) (reply b)
next Link.to_b (triggering a b, n) = Option.map (λ b'. (triggering a b', n)) (reply b)
next Link.to_b (resetting a b, n) = Option.map (λ b'. (resetting a b', n)) (reply b)
next Link.to_s (gathering a b s, n) = Option.map (λ s'. (gathering a b s', n)) (reply s)
next Link.to_s (observing s, n) = Option.map (λ s'. (observing s', n)) (reply s)
next Link.from_a (gathering a b s, n) = Option.map (λ a'. settle (gathering a' b s, n)) (arrive a)
next Link.from_a (triggering a b, n) = Option.map (λ a'. settle (triggering a' b, n)) (arrive a)
next Link.from_a (resetting a b, n) = Option.map (λ a'. settle (resetting a' b, n)) (arrive a)
next Link.from_b (gathering a b s, n) = Option.map (λ b'. settle (gathering a b' s, n)) (arrive b)
next Link.from_b (triggering a b, n) = Option.map (λ b'. settle (triggering a b', n)) (arrive b)
next Link.from_b (resetting a b, n) = Option.map (λ b'. settle (resetting a b', n)) (arrive b)
next Link.from_s (gathering a b s, n) = Option.map (λ s'. settle (gathering a b s', n)) (arrive s)
next Link.from_s (observing s, n) = Option.map (λ s'. settle (observing s', n)) (arrive s)
next _ _ = none

abbrev pub coming_mail : ℕ → Status → List ℕ
coming_mail kind coming = kind ∷ []
coming_mail kind _ = []

abbrev pub answer_mail : ℕ → Status → List ℕ
answer_mail kind answered = kind ∷ []
answer_mail kind _ = []

abbrev pub wait_of {ℓ} : {A : Type ℓ} → A → A → Status → A
wait_of before after coming = before
wait_of before after _ = after

abbrev pub mark : ℕ → Status → ℕ
mark bit heard = bit
mark bit _ = 0

abbrev orchestra_of : Contacts → Cue → WowOrchestra
orchestra_of c (scene, n) = record {
  contacts = c;
  phase = elim scene [
    | gathering _ _ _ ↦ all_ready
    | triggering _ _ ↦ nodes_done
    | observing _ ↦ sink_ready
    | resetting _ _ ↦ nodes_ready
    | over ↦ finished
  ];
  cmask = elim scene [
    | gathering a b s ↦ bit_or (mark sink s) (bit_or (mark node_a a) (mark node_b b))
    | triggering a b ↦ bit_or (mark node_a a) (mark node_b b)
    | observing s ↦ mark sink s
    | resetting a b ↦ bit_or (mark node_a a) (mark node_b b)
    | over ↦ 0
  ];
  rounds = n;
}

-- The stage that a cue tells of.
unfoldable pub stage : Contacts → Cue → Stage
stage c (gathering a b s, n) = record {
  orchestra = orchestra_of c (gathering a b s, n);
  a = wait_of client_ack client_trigger a;
  b = wait_of client_ack client_trigger b;
  s = wait_of sink_ack sink_go s;
  to_a = coming_mail ack a;
  to_b = coming_mail ack b;
  to_s = coming_mail ack s;
  from_a = answer_mail ready a;
  from_b = answer_mail ready b;
  from_s = answer_mail ready s;
}
stage c (triggering a b, n) = record {
  orchestra = orchestra_of c (triggering a b, n);
  a = wait_of client_trigger client_reset a;
  b = wait_of client_trigger client_reset b;
  s = sink_go;
  to_a = coming_mail trigger a;
  to_b = coming_mail trigger b;
  to_s = [];
  from_a = answer_mail done a;
  from_b = answer_mail done b;
  from_s = [];
}
stage c (observing s, n) = record {
  orchestra = orchestra_of c (observing s, n);
  a = client_reset;
  b = client_reset;
  s = sink_go;
  to_a = [];
  to_b = [];
  to_s = coming_mail go s;
  from_a = [];
  from_b = [];
  from_s = answer_mail ready s;
}
stage c (resetting a b, n) = record {
  orchestra = orchestra_of c (resetting a b, n);
  a = wait_of client_reset client_trigger a;
  b = wait_of client_reset client_trigger b;
  s = sink_go;
  to_a = coming_mail reset a;
  to_b = coming_mail reset b;
  to_s = [];
  from_a = answer_mail ready a;
  from_b = answer_mail ready b;
  from_s = [];
}
stage c (over, n) = record {
  orchestra = orchestra_of c (over, n);
  a = client_trigger;
  b = client_trigger;
  s = sink_go;
  to_a = [];
  to_b = [];
  to_s = [];
  from_a = [];
  from_b = [];
  from_s = [];
}

-- Every participant's address is known.
abbrev pub IsComplete : Contacts → Type 0
IsComplete c =
    (Dict.get (pos sink) c ≡ some 1)
    × (Dict.get (pos node_a) c ≡ some 2)
    × (Dict.get (pos node_b) c ≡ some 4)

-- A delivery on the stage is the cue's next step.
pub deliver-stage :
    (l : Link) (c : Contacts) (x : Cue)
    → IsComplete c
    → deliver l (stage c x) ≡ Option.map (stage c) (next l x)
unfolding deliver stage
deliver-stage l c (scene, n) h = ground (arith, h)
