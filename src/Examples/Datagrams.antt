-- ===== src/Examples/Datagrams.antt =====
-- The theorems applied to concrete input: the waits of the orchestrator.
use wow_so_distributed.Base.{
  ℕ, pos, ◌+◌, List, [], ◌∷◌, ◌++◌, ◌≡◌, ◌≢◌, refl, int_eq, true, false, inl, inr, some, none,
}
use wow_so_distributed.Concert.{Datagram, wait_msg_subset}
use wow_so_distributed.Concert.Masks.{Party, nobody, IsFirst, all_heard, wait_msg_subset-IsFirst}

abbrev from : ℕ → ℕ → Datagram
from origin kind = record { ret = pos 8; origin = origin; kind = kind; address = origin + 100 }

-- READY is 3; node A twice, an acknowledgement, and node B.
abbrev arrived : List Datagram
arrived = from 2 3 ∷ from 2 3 ∷ from 4 4 ∷ from 4 3 ∷ []

-- NODE_A and NODE_B, not the sink.
abbrev nodes : Party
nodes = record { s = false; a = true; b = true }

wait_msg_subset-IsFirst_example :
    ((rest : List Datagram)
      → wait_msg_subset 3 6 0 (from 1 3 ∷ arrived ++ from 1 3 ∷ []) ≡ some rest
      → IsFirst 3 nodes nobody (from 1 3 ∷ arrived ++ from 1 3 ∷ []) rest)
    × (all_heard 3 nodes nobody (from 1 3 ∷ arrived ++ from 1 3 ∷ []) ≡ true
        → wait_msg_subset 3 6 0 (from 1 3 ∷ arrived ++ from 1 3 ∷ []) ≢ none)
wait_msg_subset-IsFirst_example =
    wait_msg_subset-IsFirst 3 nodes (from 1 3 ∷ arrived ++ from 1 3 ∷ []) (
      inl refl,
      (inr (inl refl), (inr (inl refl), (inr (inr refl), (inr (inr refl), (inl refl, tt))))),
    )
