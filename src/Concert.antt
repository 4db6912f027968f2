-- ===== src/Concert.antt =====
-- wowAB/WowConcert.H: the orchestrator of the consistency test. What the sockets receive is a list
-- of datagrams; a wait takes datagrams until it is content, and is `none` where the list ends
-- first.
pub mod Waits
pub mod Socket
pub mod Programs
pub mod Orchestra
pub mod Participant
pub mod Stage
pub mod Cue
pub mod Handles
pub mod Show
pub mod Course
pub mod Performance
pub mod Loss
pub mod Masks
use Prim.Native.Nat.{bit_and, bit_or}
use wow_so_distributed.Base.{
  ℕ, zero, suc, ◌-◌, ◌==◌, ℤ, pos, is_negative, Bool, true, false, ◌||◌, ◌&&◌, not, Option, none,
  some, List, [], ◌∷◌, leb, if◌then◌else◌, int_eq,
}
use wow_so_distributed.Base.Int.{pos_part}
use wow_so_distributed.Base.Dict
use wow_so_distributed.Base.Dict.{Dict}

-- ParticipantId, as the bits of its int32_t.
abbrev pub sink : ℕ
sink = 1

abbrev pub node_a : ℕ
node_a = 2

abbrev pub node_b : ℕ
node_b = 4

abbrev pub orchestrator : ℕ
orchestrator = 8

-- MessageType
abbrev pub reset : ℕ
reset = 0

abbrev pub registration : ℕ
registration = 1

abbrev pub trigger : ℕ
trigger = 2

abbrev pub ready : ℕ
ready = 3

abbrev pub ack : ℕ
ack = 4

abbrev pub go : ℕ
go = 5

abbrev pub done : ℕ
done = 6

-- What one waitReceive gives: its result, the WowPigeon that then stands in the buffer, and the
-- sender's address.
pub record Datagram : Type 0 where
  pub ret : ℤ
  pub origin : ℕ
  pub kind : ℕ
  pub address : ℕ

-- ret >= sizeof(WowPigeon), which compares as unsigned: -1 passes.
unfoldable pub is_message : Datagram → Bool
is_message d = is_negative d.ret || leb 8 (pos_part d.ret)

-- contactDetails_, by the origin's bits
abbrev pub Contacts : Type 0
Contacts = Dict ℤ ℕ

abbrev pub is_known : ℕ → Contacts → Bool
is_known origin c = elim (Dict.get (pos origin) c) [ none ↦ false | some _ ↦ true ]

-- The loop of waitRegistrations.
unfoldable pub wait_registrations : List Datagram → ℕ → Contacts → Option (Contacts × List Datagram)
unfolding is_message
wait_registrations ds zero c = some (c, ds)
wait_registrations [] (suc pending) c = none
wait_registrations (d ∷ ds) (suc pending) c =
    let known = wait_registrations ds (suc pending) (Dict.put (pos d.origin) d.address c) in
    let new = wait_registrations ds pending (Dict.put (pos d.origin) d.address c) in
    let skipped = wait_registrations ds (suc pending) c in
    if is_message d then (if is_known d.origin c then known else new) else skipped

-- The test of waitMsgSubset.
unfoldable pub is_accepted : ℕ → ℕ → Datagram → Bool
unfolding is_message
is_accepted mtype pmask d = is_message d && (d.kind == mtype && not (bit_and pmask d.origin == 0))

-- The loop of waitMsgSubset.
unfoldable pub wait_msg_subset : ℕ → ℕ → ℕ → List Datagram → Option (List Datagram)
unfolding is_accepted
wait_msg_subset mtype pmask cmask [] = if cmask == pmask then some [] else none
wait_msg_subset mtype pmask cmask (d ∷ ds) =
    let taken = wait_msg_subset mtype pmask (bit_or cmask d.origin) ds in
    let skipped = wait_msg_subset mtype pmask cmask ds in
    if cmask == pmask then some (d ∷ ds) else if is_accepted mtype pmask d then taken else skipped
