-- ===== src/Concert/Programs.antt =====
-- wowAB/orchestrator.cpp and wowAB/participant.cpp behind their command lines, WowParticipant::play of
-- wowAB/WowConcert.H, and wowRPC/client.cpp. What the kernel answers for the sockets is an argument.
use wow_so_distributed.Base.{
  ℕ, zero, suc, ◌+◌, ◌-◌, ◌*◌, ◌/◌, ◌%◌, ◌^◌, ◌<◌, ◌==◌, ◌≡◌, refl, arith, ℤ, pos, negsuc, Option,
  none, some, List, [], ◌∷◌, ◌++◌, Bytes, if◌then◌else◌,
}
use wow_so_distributed.Base.Numbers.{stoi, stoll}
use wow_so_distributed.Host.{Env}
use wow_so_distributed.Exec.{Exit, returned, terminated, pure, terminate, ◌>>◌}
use wow_so_distributed.Machine.{M}
use wow_so_distributed.Client.{perform_speed_test}
use wow_so_distributed.Concert.{sink}
use wow_so_distributed.Concert.Orchestra
use wow_so_distributed.Concert.Orchestra.{WowOrchestra}
use wow_so_distributed.Concert.Participant.{Action, ClientWait, client_start, SinkWait, sink_start}
use wow_so_distributed.Concert.Socket.{new_socket, participant_id}

-- What socket and bind return for a WowUDPSocket.
pub record Opening : Type 0 where
  pub sock_fd : ℤ
  pub bound : ℤ

-- `while ( rounds-- )` of an int: from a negative number it counts down past the least one, which is
-- not defined in C++, and here wraps around.
abbrev rounds_of : ℤ → ℕ
rounds_of (pos n) = n
rounds_of (negsuc n) = 2 ^ 32 - 1 - n

abbrev new_sockets : Opening → Opening → Exit ℤ
new_sockets first second = elim (new_socket first.sock_fd first.bound) [
  | terminated ↦ terminated
  | returned fd ↦ new_socket second.sock_fd second.bound
]

-- perform, at its first wait.
abbrev perform_rounds : Option ℤ → Exit WowOrchestra
perform_rounds none = terminated
perform_rounds (some rounds) = returned (Orchestra.perform (rounds_of rounds))

abbrev with_sockets : Exit ℤ → Bytes → Exit WowOrchestra
with_sockets terminated iters = terminated
with_sockets (returned fd) iters = perform_rounds (stoi iters)

-- main of orchestrator.cpp, with the options as they are given.
unfoldable pub orchestrator_main : Bytes → Bytes → Bytes → Opening → Opening → Exit WowOrchestra
unfolding stoi new_socket
orchestrator_main port secport iters first second = elim (stoi port) [
  | none ↦ terminated
  | some p ↦ elim (stoi secport) [
    | none ↦ terminated
    | some q ↦ with_sockets (new_sockets first second) iters
  ]
]

-- A participant at its first wait, with what it has done up to it.
pub data Playing : Type 0 where
  as_sink : SinkWait × List Action → Playing
  as_client : ClientWait × List Action → Playing

unfoldable pub play : ℕ → Playing
play id = if id == sink then as_sink sink_start else as_client client_start

-- How the start of a participant ends: with std::exit, with an uncaught exception or std::terminate,
-- or in play.
pub data Started : Type 0 where
  exited : ℕ → Started
  stopped : Started
  playing : Playing → Started

abbrev play_on : ℕ → Exit ℤ → Started
play_on id terminated = stopped
play_on id (returned fd) = playing (play id)

abbrev play_as : Option ℕ → Opening → Started
play_as none opening = exited 1
play_as (some id) opening = play_on id (new_socket opening.sock_fd opening.bound)

-- main of participant.cpp: the type, the port and the orchestrator's port as they are given.
unfoldable pub participant_main : Bytes → Bytes → Bytes → Opening → Started
unfolding stoi new_socket participant_id play
participant_main kind port orchestrator_port opening = elim (stoi orchestrator_port) [
  | none ↦ stopped
  | some o ↦ elim (stoi port) [ none ↦ stopped | some p ↦ play_as (participant_id kind) opening ]
]

-- main of client.cpp; 12 is the number that the server shows.
unfoldable pub speed_test_main : Env → Bytes → M ℤ
unfolding stoll perform_speed_test
speed_test_main env sz = elim (stoll sz) [
  | none ↦ terminate
  | some size ↦ (do perform_speed_test env (pos 12) size; pure (pos 0))
]

-- __builtin_popcount of a number of `bits` bits.
unfoldable popcount : ℕ → ℕ → ℕ
popcount zero n = 0
popcount (suc bits) n = n % 2 + popcount bits (n / 2)

-- ParticipantId::LAST_PT is 16.
unfoldable get_num_participants : ℕ
unfolding popcount
get_num_participants = popcount 32 (16 - 1) - 1

-- perform waits for the registrations of all participants.
get_num_participants-perform :
    (rounds : ℕ) → (Orchestra.perform rounds).phase ≡ Orchestra.registering get_num_participants
unfolding get_num_participants
get_num_participants-perform rounds = refl

-- An int32_t in memory, and out of it: four bytes, the least significant first.
abbrev bytes_of : ℕ → Bytes
bytes_of n = n % 256 ∷ n / 256 % 256 ∷ n / 65536 % 256 ∷ n / 16777216 % 256 ∷ []

-- notifyOrchestrator: the packed WowPigeon in the buffer that is sent.
unfoldable pub pigeon_bytes : ℕ → ℕ → Bytes
pigeon_bytes origin kind = bytes_of origin ++ bytes_of kind

abbrev word : ℕ → ℕ → ℕ → ℕ → ℕ
word a b c d = a + 256 * b + 65536 * c + 16777216 * d

-- The receiver's reinterpret_cast of its buffer: origin and kind.
unfoldable pub read_pigeon : Bytes → Option (ℕ × ℕ)
read_pigeon (a ∷ b ∷ c ∷ d ∷ e ∷ f ∷ g ∷ h ∷ rest) = some (word a b c d, word e f g h)
read_pigeon _ = none

word_bytes :
    (n : ℕ) → n < 2 ^ 32 → word (n % 256) (n / 256 % 256) (n / 65536 % 256) (n / 16777216 % 256) ≡ n
word_bytes n small = omega (arith, small)

-- What a participant sends is what the receiver reads.
pub read_pigeon-pigeon_bytes :
    (origin kind : ℕ)
    → origin < 2 ^ 32
    → kind < 2 ^ 32
    → read_pigeon (pigeon_bytes origin kind) ≡ some (origin, kind)
unfolding read_pigeon pigeon_bytes
read_pigeon-pigeon_bytes origin kind small small' =
    rw (word_bytes origin small, word_bytes kind small') refl
