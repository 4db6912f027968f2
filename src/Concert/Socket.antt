-- ===== src/Concert/Socket.antt =====
-- wowAB/WowSocket.H: WowUDPSocket over what the kernel answers, and the starts of
-- wowAB/orchestrator.cpp and wowAB/participant.cpp behind their command lines.
use wow_so_distributed.Base.{
  ℕ, ◌==◌, ℤ, is_negative, is_minus_one, not, Bool, true, false, ◌||◌, ◌&&◌, Option, none, some,
  List, [], ◌∷◌, ◌++◌, Bytes, codes, eq_bytes, ◌≡◌, arith, if◌then◌else◌,
}
use wow_so_distributed.Exec.{Exit, returned, terminated}
use wow_so_distributed.Inject.Errno.{eagain, ewouldblock}
use wow_so_distributed.Concert.{sink, node_a, node_b}

-- The constructor: the descriptor, from what socket and bind return.
unfoldable pub new_socket : ℤ → ℤ → Exit ℤ
new_socket sock_fd bound =
    if is_negative sock_fd
    then terminated
    else if is_negative bound
    then terminated
    else returned sock_fd

-- One round of waitReceive: what recvfrom returns, errno, and keepRunning.
pub record Attempt : Type 0 where
  pub ret : ℤ
  pub errno : ℕ
  pub keep_running : Bool

abbrev pub should_repeat : Attempt → Bool
should_repeat a = is_minus_one a.ret && (a.errno == eagain || a.errno == ewouldblock)

-- `none` where the rounds end first: it polls on.
unfoldable pub wait_receive : List Attempt → Option (ℤ × List Attempt)
wait_receive [] = none
wait_receive (a ∷ rest) =
    let again = wait_receive rest in
    if a.keep_running && should_repeat a then again else some (a.ret, rest)

-- sendTo, from what sendto returns.
unfoldable pub send_to : ℤ → Bool
send_to ret = not (is_minus_one ret)

-- The type that participant takes; `none` where it exits with 1.
unfoldable pub participant_id : Bytes → Option ℕ
unfolding eq_bytes
participant_id kind =
    if eq_bytes kind (codes "node_a")
    then some node_a
    else if eq_bytes kind (codes "node_b")
    then some node_b
    else if eq_bytes kind (codes "sink")
    then some sink
    else none

-- Nothing has come, and the process is kept running.
abbrev pub AllIdle : List Attempt → Type 0
AllIdle [] = Unit
AllIdle (a ∷ rest) = ((a.keep_running && should_repeat a) ≡ true) × AllIdle rest

-- waitReceive polls while nothing has come, and gives the first other result.
pub wait_receive_polls :
    (idle : List Attempt) (a : Attempt) (rest : List Attempt)
    → AllIdle idle
    → should_repeat a ≡ false
    → wait_receive (idle ++ a ∷ rest) ≡ some (a.ret, rest)
unfolding wait_receive
wait_receive_polls [] a rest h come = ground (arith, come)
wait_receive_polls (b ∷ idle) a rest h come =
    ground (arith, h, wait_receive_polls idle a rest h.1 come)
