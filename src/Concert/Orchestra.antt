-- ===== src/Concert/Orchestra.antt =====
-- WowOrchestra of wowAB/WowConcert.H: perform as a machine that runs from one wait to the next. A
-- received datagram takes it a step further; what it sends on the way is the step's result.
use Prim.Native.Nat.{bit_or}
use wow_so_distributed.Base.{
  ℕ, zero, suc, ◌==◌, pos, Bool, true, false, none, some, List, [], ◌∷◌, ◌++◌, not, int_eq,
  if◌then◌else◌,
}
use wow_so_distributed.Base.Dict
use wow_so_distributed.Concert.{
  Datagram, Contacts, is_known, is_message, is_accepted, sink, node_a, node_b, reset, trigger,
  ready, ack, go, done,
}

-- The wait in which perform stands: waitRegistrations with what is pending, and the calls of
-- waitMsgSubset in the order of the source.
pub data Phase : Type 0 where
  registering : ℕ → Phase
  all_ready nodes_done sink_ready nodes_ready finished : Phase

-- contactDetails_, the wait with its cmask, and the rounds that are left.
pub record WowOrchestra : Type 0 where
  pub contacts : Contacts
  pub phase : Phase
  pub cmask : ℕ
  pub rounds : ℕ

-- A WowPigeon on its way: the receiver's address, and whether the second socket sends it.
pub record Notice : Type 0 where
  pub address : ℕ
  pub kind : ℕ
  pub use_secondary : Bool

abbrev pub Performing : Type 0
Performing = WowOrchestra × List Notice

-- contactDetails_[id], which enters an id that is missing, with the address 0.
abbrev pub address_of : ℕ → Contacts → ℕ
address_of id c = elim (Dict.get (pos id) c) [ none ↦ 0 | some address ↦ address ]

abbrev pub with_contact : ℕ → Contacts → Contacts
with_contact id c = elim (Dict.get (pos id) c) [ none ↦ Dict.put (pos id) 0 c | some _ ↦ c ]

unfoldable pub notify_one : ℕ → ℕ → Bool → Performing → Performing
notify_one id kind use_secondary (o, sent) = (
  record o { contacts = with_contact id o.contacts },
  sent
      ++ record { address = address_of id o.contacts; kind = kind; use_secondary = use_secondary }
        ∷ [],
)

-- In some order of the map.
unfoldable pub notify_all : ℕ → Contacts → List Notice
notify_all kind [] = []
notify_all kind ((id, address) ∷ c) =
    record { address = address; kind = kind; use_secondary = false } ∷ notify_all kind c

-- notifyABParallel; its two threads only send.
unfoldable pub notify_ab : ℕ → Performing → Performing
unfolding notify_one
notify_ab kind p = notify_one node_b kind true (notify_one node_a kind false p)

-- while ( rounds-- )
unfoldable pub next_round : ℕ → WowOrchestra → Performing
unfolding notify_ab
next_round zero o = (record o { phase = finished }, [])
next_round (suc rounds) o = notify_ab trigger (record o { phase = nodes_done; rounds = rounds }, [])

-- From the end of a wait to the next one.
unfoldable pub after_wait : Phase → WowOrchestra → Performing
unfolding next_round notify_ab notify_one
after_wait (registering pending) o = (o, [])
after_wait all_ready o = next_round o.rounds o
after_wait nodes_done o = notify_one sink go false (record o { phase = sink_ready }, [])
after_wait sink_ready o = notify_ab reset (record o { phase = nodes_ready }, [])
after_wait nodes_ready o = next_round o.rounds o
after_wait finished o = (o, [])

-- One round of the loop of waitMsgSubset.
unfoldable pub hear : ℕ → ℕ → Datagram → WowOrchestra → Performing
unfolding is_accepted after_wait
hear mtype pmask d o =
    let cmask = if is_accepted mtype pmask d then bit_or o.cmask d.origin else o.cmask in
    if cmask == pmask
    then after_wait o.phase (record o { cmask = 0 })
    else (record o { cmask = cmask }, [])

-- One round of the loop of waitRegistrations, and the ACKs behind it.
unfoldable pub register : ℕ → Datagram → WowOrchestra → Performing
unfolding is_message notify_all
register pending d o =
    let contacts = Dict.put (pos d.origin) d.address o.contacts in
    if not (is_message d)
    then (o, [])
    else if is_known d.origin o.contacts
    then (record o { contacts = contacts }, [])
    else if pending == 0
    then (record o { contacts = contacts; phase = all_ready }, notify_all ack contacts)
    else (record o { contacts = contacts; phase = registering pending }, [])

unfoldable pub receive_in : Phase → Datagram → WowOrchestra → Performing
unfolding register hear
receive_in (registering zero) d o = (o, [])
receive_in (registering (suc pending)) d o = register pending d o
receive_in all_ready d o = hear ready 7 d o
receive_in nodes_done d o = hear done 6 d o
receive_in sink_ready d o = hear ready 1 d o
receive_in nodes_ready d o = hear ready 6 d o
receive_in finished d o = (o, [])

unfoldable pub receive : Datagram → WowOrchestra → Performing
unfolding receive_in
receive d o = receive_in o.phase d o

-- perform( rounds ) at its first wait; getNumParticipants() is 3.
abbrev pub perform : ℕ → WowOrchestra
perform rounds = record { contacts = []; phase = registering 3; cmask = 0; rounds = rounds }
