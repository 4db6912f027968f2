-- ===== src/Concert/Participant.antt =====
-- WowParticipant of wowAB/WowConcert.H: playSink and playClient as machines that run from one wait
-- to the next.
use wow_so_distributed.Base.{ℕ, ◌==◌, Bool, ◌&&◌, List, [], ◌∷◌, if◌then◌else◌}
use wow_so_distributed.Concert.{
  Datagram, is_message, orchestrator, reset, registration, trigger, ready, ack, go, done,
}

-- What a participant does, in order: messages to the orchestrator, and calls on the file.
pub data Action : Type 0 where
  notify : ℕ → Action
  open_truncated write_name close_file sleep open_for_reading read : Action

-- The test of waitFor.
unfoldable pub is_for_me : ℕ → Datagram → Bool
unfolding is_message
is_for_me mtype d = is_message d && (d.origin == orchestrator && d.kind == mtype)

-- The wait in which playClient stands.
pub data ClientWait : Type 0 where
  client_ack client_trigger client_reset : ClientWait

pub data SinkWait : Type 0 where
  sink_ack sink_go : SinkWait

-- The head of playClient's loop.
abbrev pub prepare : ClientWait × List Action
prepare = (client_trigger, open_truncated ∷ write_name ∷ notify ready ∷ [])

abbrev pub client_start : ClientWait × List Action
client_start = (client_ack, notify registration ∷ [])

unfoldable pub play_client : Datagram → ClientWait → ClientWait × List Action
unfolding is_for_me
play_client d client_ack = if is_for_me ack d then prepare else (client_ack, [])
play_client d client_trigger =
    if is_for_me trigger d
    then (client_reset, close_file ∷ notify done ∷ [])
    else (client_trigger, [])
play_client d client_reset = if is_for_me reset d then prepare else (client_reset, [])

abbrev pub sink_start : SinkWait × List Action
sink_start = (sink_ack, notify registration ∷ [])

unfoldable pub play_sink : Datagram → SinkWait → SinkWait × List Action
unfolding is_for_me
play_sink d sink_ack = if is_for_me ack d then (sink_go, notify ready ∷ []) else (sink_ack, [])
play_sink d sink_go =
    if is_for_me go d
    then (sink_go, sleep ∷ open_for_reading ∷ read ∷ close_file ∷ notify ready ∷ [])
    else (sink_go, [])
