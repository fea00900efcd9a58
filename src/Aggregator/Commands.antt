-- ===== src/Aggregator/Commands.antt =====
-- `handle_dispatcher_command` of aggregator.rs: what each command makes the aggregator do. Sending on a
-- channel does not fail while its receiver lives, and a failure of the network is only logged. The kind of
-- an `Actions` command, which the code ignores, is left out.
use wavs.Prelude.{Bool, true, false, Option, none, some, List, [], ◌∷◌, map, Bytes, bytes_eq}
use wavs.Prelude.Map.{Map}
use wavs.Types.Service.{ServiceId, Service}
use wavs.Types.Submission.{Submission, AggregatorAction}
use wavs.Aggregator.Submit.{AggregatorExecute, standard, extract_service_from_submission}

pub data Peer : Type 0 where
  me : Peer
  other : Bytes → Peer

pub data AggregatorCommand (D : Type 0) : Type 0 where
  kill : AggregatorCommand D
  broadcast : Submission D → AggregatorCommand D
  receive : Submission D → Peer → AggregatorCommand D
  actions : Submission D → List AggregatorAction → AggregatorCommand D
  subscribe_service unsubscribe_service : ServiceId → AggregatorCommand D

-- A `Receive` to itself, a submission to the network, a command to the dispatcher, the task of one
-- action, or a change of the topics of the network.
pub data Effect (D : Type 0) : Type 0 where
  to_self publish : Submission D → Effect D
  execute : AggregatorExecute D → Effect D
  spawn : Submission D → Service → AggregatorAction → Effect D
  subscribe unsubscribe : ServiceId → Effect D

module _ {D : Type 0} where
  -- The network is optional.
  abbrev pub on_network : Bool → Effect D → List (Effect D)
  on_network false e = []
  on_network true e = e ∷ []

  unfoldable pub handle_broadcast : Bool → Submission D → List (Effect D)
  handle_broadcast p2p submission = to_self submission ∷ on_network p2p (publish submission)

  unfoldable pub handle_receive : Submission D → Service → List (Effect D)
  handle_receive submission service =
      execute (record { submission = submission; service = service; kind = standard }) ∷ []

  -- What follows where the service was found.
  abbrev pub with_service : Option Service → (Service → List (Effect D)) → List (Effect D)
  with_service none k = []
  with_service (some service) k = k service

  unfoldable pub handle_dispatcher_command :
      Map ServiceId Service → Bool → AggregatorCommand D → List (Effect D)
  unfolding extract_service_from_submission handle_broadcast handle_receive
  handle_dispatcher_command services p2p kill = []
  handle_dispatcher_command services p2p (broadcast submission) =
      with_service (extract_service_from_submission services submission)
        (λ service. handle_broadcast p2p submission)
  handle_dispatcher_command services p2p (receive submission peer) =
      with_service (extract_service_from_submission services submission)
        (λ service. handle_receive submission service)
  handle_dispatcher_command services p2p (actions submission list) =
      with_service (extract_service_from_submission services submission)
        (λ service. map (spawn submission service) list)
  handle_dispatcher_command services p2p (subscribe_service sid) = on_network p2p (subscribe sid)
  handle_dispatcher_command services p2p (unsubscribe_service sid) =
      on_network p2p (unsubscribe sid)
