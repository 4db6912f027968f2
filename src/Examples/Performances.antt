-- ===== src/Examples/Performances.antt =====
-- Schedules of wowAB/WowConcert.H at work: a performance of one round, and its first deliveries.
use wow_so_distributed.Base.{
  ◌+◌, ◌*◌, ◌≤◌, ◌<◌, ◌≡◌, ◌≢◌, ◌↔◌, arith, none, List, [], ◌∷◌, ◌++◌, length, refl,
}
use mathlib.Core.Option
use wow_so_distributed.Base.Dict
use wow_so_distributed.Concert.Orchestra.{finished}
use wow_so_distributed.Concert.Stage.{
  Stage, Link, from_a, from_b, from_s, to_a, to_b, to_s, deliver, deliver_all, opening,
}
use wow_so_distributed.Concert.Loss.{lose, lost_datagram_blocks}
use wow_so_distributed.Concert.Performance.{
  HearsAll, performance_ends, performance_goes_on, performance-HearsAll,
}

abbrev until_go : List Link
until_go =
    from_b ∷ from_s ∷ from_a ∷ to_s ∷ to_b ∷ from_b ∷ to_a ∷ from_s ∷ from_a ∷ to_b ∷ from_b ∷ to_a
    ∷ from_a ∷ []

abbrev one_round : List Link
one_round = until_go ++ to_s ∷ from_s ∷ to_b ∷ to_a ∷ from_a ∷ from_b ∷ []

abbrev after : List Link → Stage
after ls = Option.get_or (deliver_all ls (opening 1)) (opening 1)

performance_ends_example :
    (length one_round ≤ 9 + 10 * 1)
    × ((length one_round ≡ 9 + 10 * 1) ↔ ((after one_round).orchestra.phase ≡ finished))
unfolding deliver_all Dict.get Dict.put
performance_ends_example = performance_ends 1 one_round (after one_round) refl

performance_goes_on_example : (l : Link) × (deliver l (after until_go) ≢ none)
unfolding deliver_all Dict.get Dict.put
performance_goes_on_example = performance_goes_on 1 until_go (after until_go) refl (omega arith)

performance-HearsAll_example : HearsAll (after until_go)
unfolding deliver_all Dict.get Dict.put
performance-HearsAll_example = performance-HearsAll 1 until_go (after until_go) refl

abbrev acks : List Link
acks = from_b ∷ from_s ∷ from_a ∷ []

-- The ACK of NODE_A is lost; the sink and NODE_B go on.
abbrev others : List Link
others = to_s ∷ to_b ∷ from_b ∷ from_s ∷ []

abbrev lacking : Stage
lacking = Option.get_or (lose to_a (after acks)) (opening 1)

abbrev stuck : Stage
stuck = Option.get_or (deliver_all others lacking) (opening 1)

lost_datagram_blocks_example :
    (stuck.orchestra.phase ≢ finished) × (length acks + length others < 9 + 10 * 1)
unfolding deliver_all lose Dict.get Dict.put
lost_datagram_blocks_example =
    lost_datagram_blocks 1 acks others to_a (after acks) lacking stuck refl refl refl
