-- ===== src/Concert/Handles.antt =====
-- The file that the nodes of wowAB/WowConcert.H write to: whether a node has it open after a schedule.
use wow_so_distributed.Base.{
  ℕ, ◌≡◌, arith, Bool, true, false, none, some, List, [], ◌∷◌, Option-cases, inl, inr,
}
use wow_so_distributed.Concert.{orchestrator}
use wow_so_distributed.Concert.Participant.{
  Action, open_truncated, open_for_reading, close_file, ClientWait, client_trigger, play_client,
}
use wow_so_distributed.Concert.Stage.{Stage, Link, pigeon, deliver, deliver_all, orchestrate}

-- Whether the file is open behind the actions, where it was so or not before them.
abbrev pub open_after : List Action → Bool → Bool
open_after [] held = held
open_after (open_truncated ∷ acts) held = open_after acts true
open_after (open_for_reading ∷ acts) held = open_after acts true
open_after (close_file ∷ acts) held = open_after acts false
open_after (_ ∷ acts) held = open_after acts held

abbrev node_acts : List ℕ → ClientWait → List Action
node_acts [] wait = []
node_acts (kind ∷ rest) wait = (play_client (pigeon orchestrator kind) wait).1

-- What NODE_A and NODE_B do at a delivery.
abbrev pub acts_a : Link → Stage → List Action
acts_a Link.to_a st = node_acts st.to_a st.a
acts_a _ st = []

abbrev pub acts_b : Link → Stage → List Action
acts_b Link.to_b st = node_acts st.to_b st.b
acts_b _ st = []

-- Whether the file is open behind a schedule, for a node that does `acts`.
unfoldable pub open_behind : (Link → Stage → List Action) → List Link → Stage → Bool → Bool
open_behind acts [] st held = held
open_behind acts (l ∷ ls) st held = elim (deliver l st) [
  | none ↦ held
  | some st' ↦ open_behind acts ls st' (open_after (acts l st) held)
]

-- The wait in which a node has the file open.
abbrev pub is_opened : ClientWait → Bool
is_opened client_trigger = true
is_opened _ = false

play_client-is_opened :
    (kind : ℕ) (wait : ClientWait)
    → let (wait', acts) = play_client (pigeon orchestrator kind) wait in
      open_after acts (is_opened wait) ≡ is_opened wait'
unfolding play_client
play_client-is_opened kind wait = ground arith

acts_a-is_opened :
    (l : Link) (st st' : Stage)
    → deliver l st ≡ some st'
    → open_after (acts_a l st) (is_opened st.a) ≡ is_opened st'.a
unfolding deliver orchestrate
acts_a-is_opened l st st' h = grind (arith, h, play_client-is_opened)

acts_b-is_opened :
    (l : Link) (st st' : Stage)
    → deliver l st ≡ some st'
    → open_after (acts_b l st) (is_opened st.b) ≡ is_opened st'.b
unfolding deliver orchestrate
acts_b-is_opened l st st' h = grind (arith, h, play_client-is_opened)

-- A node has the file open exactly while it waits for the trigger.
module _ (acts : Link → Stage → List Action) (wait : Stage → ClientWait)
    (step : (l : Link) (st st' : Stage)
      → deliver l st ≡ some st'
      → open_after (acts l st) (is_opened (wait st)) ≡ is_opened (wait st')) where
  open_behind-is_opened :
      (ls : List Link) (st t : Stage)
      → deliver_all ls st ≡ some t
      → open_behind acts ls st (is_opened (wait st)) ≡ is_opened (wait t)
  unfolding open_behind deliver_all
  open_behind-is_opened [] st t h = let e : st ≡ t = cc in rw e
  open_behind-is_opened (l ∷ ls) st t h = elim (Option-cases (deliver l st)) [
    | inl nothing ↦ cc
    | inr (st', moved) ↦
        let rest : deliver_all ls st' ≡ some t = cc in
        rw (moved, step l st st' moved, open_behind) (open_behind-is_opened ls st' t rest)
  ]

pub open_behind-a :
    (ls : List Link) (st t : Stage)
    → deliver_all ls st ≡ some t
    → open_behind acts_a ls st (is_opened st.a) ≡ is_opened t.a
open_behind-a = open_behind-is_opened acts_a (λ st. st.a) acts_a-is_opened

pub open_behind-b :
    (ls : List Link) (st t : Stage)
    → deliver_all ls st ≡ some t
    → open_behind acts_b ls st (is_opened st.b) ≡ is_opened t.b
open_behind-b = open_behind-is_opened acts_b (λ st. st.b) acts_b-is_opened
