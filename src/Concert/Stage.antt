-- ===== src/Concert/Stage.antt =====
-- The orchestrator and the three participants of wowAB/WowConcert.H together, from the registration
-- on, over a network that delivers each datagram once and keeps the order between two parties. An
-- address is the bit of the participant that listens there.
use wow_so_distributed.Base.{ℕ, pos, ◌==◌, Option, none, some, List, [], ◌∷◌, ◌++◌, if◌then◌else◌}
use wow_so_distributed.Concert.{Datagram, sink, node_a, node_b, orchestrator}
use wow_so_distributed.Concert.Orchestra
use wow_so_distributed.Concert.Orchestra.{WowOrchestra, Notice, all_ready}
use wow_so_distributed.Concert.Participant.{
  Action, notify, ClientWait, client_start, SinkWait, sink_start, play_client, play_sink,
}

-- A datagram of full size.
abbrev pub pigeon : ℕ → ℕ → Datagram
pigeon origin kind = record { ret = pos 8; origin = origin; kind = kind; address = origin }

-- The states of the four, and the kinds of the datagrams on the way to and from each participant.
pub record Stage : Type 0 where
  pub orchestra : WowOrchestra
  pub a : ClientWait
  pub b : ClientWait
  pub s : SinkWait
  pub to_a : List ℕ
  pub to_b : List ℕ
  pub to_s : List ℕ
  pub from_a : List ℕ
  pub from_b : List ℕ
  pub from_s : List ℕ

-- What is sent to one address.
abbrev pub mail : ℕ → List Notice → List ℕ
mail address [] = []
mail address (n ∷ ns) = if n.address == address then n.kind ∷ mail address ns else mail address ns

-- What a participant sends.
abbrev pub told : List Action → List ℕ
told [] = []
told (notify kind ∷ acts) = kind ∷ told acts
told (_ ∷ acts) = told acts

-- The datagram that is delivered next.
pub data Link : Type 0 where
  from_a from_b from_s to_a to_b to_s : Link

unfoldable pub orchestrate : ℕ → ℕ → Stage → Stage
unfolding Orchestra.receive
orchestrate origin kind st =
    let (o, sent) = Orchestra.receive (pigeon origin kind) st.orchestra in
    record st {
      orchestra = o;
      to_a = st.to_a ++ mail node_a sent;
      to_b = st.to_b ++ mail node_b sent;
      to_s = st.to_s ++ mail sink sent;
    }

abbrev head_from : List ℕ → (ℕ → List ℕ → Stage) → Option Stage
head_from [] k = none
head_from (kind ∷ rest) k = some (k kind rest)

-- A delivery; `none` where nothing is on the way on the link.
unfoldable pub deliver : Link → Stage → Option Stage
unfolding orchestrate play_client play_sink
deliver Link.from_a st =
    head_from st.from_a (λ kind rest. orchestrate node_a kind (record st { from_a = rest }))
deliver Link.from_b st =
    head_from st.from_b (λ kind rest. orchestrate node_b kind (record st { from_b = rest }))
deliver Link.from_s st =
    head_from st.from_s (λ kind rest. orchestrate sink kind (record st { from_s = rest }))
deliver Link.to_a st = head_from st.to_a λ kind rest.
    let (wait, acts) = play_client (pigeon orchestrator kind) st.a in
    record st { a = wait; to_a = rest; from_a = st.from_a ++ told acts }
deliver Link.to_b st = head_from st.to_b λ kind rest.
    let (wait, acts) = play_client (pigeon orchestrator kind) st.b in
    record st { b = wait; to_b = rest; from_b = st.from_b ++ told acts }
deliver Link.to_s st = head_from st.to_s λ kind rest.
    let (wait, acts) = play_sink (pigeon orchestrator kind) st.s in
    record st { s = wait; to_s = rest; from_s = st.from_s ++ told acts }

unfoldable pub deliver_all : List Link → Stage → Option Stage
unfolding deliver
deliver_all [] st = some st
deliver_all (l ∷ ls) st = elim (deliver l st) [ none ↦ none | some st' ↦ deliver_all ls st' ]

-- Everyone has sent its registration, and perform( rounds ) stands at its first wait.
abbrev pub opening : ℕ → Stage
opening rounds = record {
  orchestra = Orchestra.perform rounds;
  a = client_start.0;
  b = client_start.0;
  s = sink_start.0;
  to_a = [];
  to_b = [];
  to_s = [];
  from_a = told client_start.1;
  from_b = told client_start.1;
  from_s = told sink_start.1;
}
