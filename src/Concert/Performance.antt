-- ===== src/Concert/Performance.antt =====
-- What holds of every schedule of a performance of wowAB/WowConcert.H, from the registrations on.
use wow_so_distributed.Base.{
  ℕ, ◌+◌, ◌*◌, ◌<◌, ◌≤◌, ◌≡◌, ◌≢◌, ◌↔◌, arith, some, none, List, length, [], ◌∷◌, ◌⊎◌,
}
use wow_so_distributed.Concert.{reset, trigger, ack, go, ready, registration, done}
use wow_so_distributed.Concert.Orchestra.{
  Phase, registering, all_ready, nodes_done, sink_ready, nodes_ready, finished,
}
use wow_so_distributed.Concert.Participant.{
  ClientWait, client_ack, client_trigger, client_reset, SinkWait, sink_ack, sink_go,
}
use wow_so_distributed.Concert.Stage.{Stage, Link, deliver, deliver_all, opening}
use wow_so_distributed.Concert.Cue.{stage}
use wow_so_distributed.Concert.Show.{
  Act, enlisting, playing, nobody, stage_of, IsSound, deliver-stage_of,
}
use wow_so_distributed.Concert.Course.{left, busy, deliver_all-IsSound, go_on-busy, finished-left}

-- What a participant waits for.
abbrev pub client_awaits : ClientWait → List ℕ
client_awaits client_ack = ack ∷ []
client_awaits client_trigger = trigger ∷ []
client_awaits client_reset = reset ∷ []

abbrev pub sink_awaits : SinkWait → List ℕ
sink_awaits sink_ack = ack ∷ []
sink_awaits sink_go = go ∷ []

-- What the orchestrator waits for from a node, and from the sink.
abbrev pub awaits_node : Phase → List ℕ
awaits_node (registering _) = registration ∷ []
awaits_node all_ready = ready ∷ []
awaits_node nodes_done = done ∷ []
awaits_node nodes_ready = ready ∷ []
awaits_node _ = []

abbrev pub awaits_sink : Phase → List ℕ
awaits_sink (registering _) = registration ∷ []
awaits_sink all_ready = ready ∷ []
awaits_sink sink_ready = ready ∷ []
awaits_sink _ = []

-- Nothing is on the way, or exactly what is awaited.
abbrev pub IsAwaited : List ℕ → List ℕ → Type 0
IsAwaited wanted l = (l ≡ []) ⊎ (l ≡ wanted)

-- Every link carries nothing, or the one datagram that its receiver waits for.
abbrev pub HearsAll : Stage → Type 0
HearsAll t =
    IsAwaited (client_awaits t.a) t.to_a
    × IsAwaited (client_awaits t.b) t.to_b
    × IsAwaited (sink_awaits t.s) t.to_s
    × IsAwaited (awaits_node t.orchestra.phase) t.from_a
    × IsAwaited (awaits_node t.orchestra.phase) t.from_b
    × IsAwaited (awaits_sink t.orchestra.phase) t.from_s

HearsAll-stage_of : (y : Act) → HearsAll (stage_of y)
unfolding stage_of stage
HearsAll-stage_of (enlisting roll n) = ground arith
HearsAll-stage_of (playing c (scene, n)) = ground arith

-- Both nodes wait for the reset, and nothing is on the way to them.
abbrev pub IsQuiet : Stage → Type 0
IsQuiet t = (t.a ≡ client_reset) × (t.b ≡ client_reset) × (t.to_a ≡ []) × (t.to_b ≡ [])

module _ (rounds : ℕ) (ls : List Link) (t : Stage)
    (h : deliver_all ls (opening rounds) ≡ some t) where
  reached : (y : Act) × IsSound y × (t ≡ stage_of y) × (length ls + left y ≡ 9 + 10 * rounds)
  unfolding stage_of
  reached = deliver_all-IsSound ls (enlisting nobody rounds) t tt h

  -- Over a network that loses nothing, every schedule of deliveries from the registrations on has
  -- at most 9 + 10 * rounds of them, and the orchestrator has left perform( rounds ) exactly when
  -- there have been so many.
  pub performance_ends :
      (length ls ≤ 9 + 10 * rounds)
      × ((length ls ≡ 9 + 10 * rounds) ↔ (t.orchestra.phase ≡ finished))
  performance_ends =
      let (y, sound, same, all) = reached in
      let (to, from) = finished-left y sound in
      (omega arith, rw same (λ e. to (omega arith), λ e. omega (arith, from e)))

  -- After a schedule of less than 9 + 10 * rounds deliveries, a datagram is on the way: the
  -- orchestrator and the participants never all wait in vain, if the network loses nothing.
  pub performance_goes_on : length ls < 9 + 10 * rounds → (l : Link) × (deliver l t ≢ none)
  performance_goes_on more =
      let (y, sound, same, all) = reached in
      (
        busy y,
        λ e.
            go_on-busy y sound (omega arith)
              (ground (arith, same, e, deliver-stage_of (busy y) y sound)),
      )

  -- After every schedule of deliveries from the registrations on, each of the six links carries
  -- nothing, or the one datagram that its receiver waits for: no wait discards a message.
  pub performance-HearsAll : HearsAll t
  performance-HearsAll = let (y, sound, same, all) = reached in rw same (HearsAll-stage_of y)
