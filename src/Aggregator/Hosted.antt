-- ===== src/Aggregator/Hosted.antt =====
-- For which services the aggregator works: those of its table, with a workflow that submits to it.
use wavs.Prelude.{
  ◌≡◌, refl, ap, ◌∙◌, Bool, Option, none, some, List, [], ◌∷◌, map, bytes_eq, arith, inl, inr, ◌⊎◌,
}
use wavs.Prelude.Map.{Map, get}
use wavs.Types.Service.{
  ServiceId, Service, Workflow, Submit, Component, SignatureKind, no_submit, aggregator,
}
use wavs.Types.Submission.{Submission, AggregatorAction, service_id, workflow_id}
use wavs.Aggregator.Submit.{
  extract_service_from_submission, if_service, if_workflow, if_aggregator, standard,
}
use wavs.Aggregator.Commands.{
  broadcast, receive, actions, to_self, publish, execute, spawn, Peer, on_network, handle_broadcast,
  handle_receive, with_service, handle_dispatcher_command,
}

module _ {D : Type 0} where
  -- The table has the service of a submission, and its workflow submits to an aggregator.
  pub record IsHosted (services : Map ServiceId Service) (s : Submission D) (service : Service)
      : Type 0 where
    pub workflow : Workflow
    pub component : Component
    pub kind : SignatureKind
    pub stored : get services (service_id s) ≡ some service
    pub has_workflow : get service.workflows (workflow_id s) ≡ some workflow
    pub submits : workflow.submit ≡ aggregator component kind

  submit-IsHosted :
      (services : Map ServiceId Service) (s : Submission D) (found service : Service)
      (workflow : Workflow) (submit : Submit)
      → get services (service_id s) ≡ some found
      → get found.workflows (workflow_id s) ≡ some workflow
      → workflow.submit ≡ submit
      → if_aggregator found submit ≡ some service
      → IsHosted services s service
  submit-IsHosted services s found service workflow no_submit e w x h = absurd (ground (arith, h))
  submit-IsHosted services s found service workflow (aggregator c k) e w x h = record {
    workflow = workflow;
    component = c;
    kind = k;
    stored = e ∙ h;
    has_workflow = cc (h, w);
    submits = x;
  }

  workflow-IsHosted :
      (services : Map ServiceId Service) (s : Submission D) (found service : Service)
      (o : Option Workflow)
      → get services (service_id s) ≡ some found
      → get found.workflows (workflow_id s) ≡ o
      → if_workflow found o ≡ some service
      → IsHosted services s service
  workflow-IsHosted services s found service none e w h = absurd (ground (arith, h))
  workflow-IsHosted services s found service (some workflow) e w h =
      submit-IsHosted services s found service workflow workflow.submit e w refl h

  found-IsHosted :
      (services : Map ServiceId Service) (s : Submission D) (service : Service) (o : Option Service)
      → get services (service_id s) ≡ o
      → if_service s o ≡ some service
      → IsHosted services s service
  found-IsHosted services s service none e h = absurd (ground (arith, h))
  found-IsHosted services s service (some found) e h =
      workflow-IsHosted services s found service (get found.workflows (workflow_id s)) e refl h

  IsHosted-found :
      (services : Map ServiceId Service) (s : Submission D) (service : Service)
      → IsHosted services s service
      → extract_service_from_submission services s ≡ some service
  unfolding extract_service_from_submission
  IsHosted-found services s service h =
      ap (if_service s) h.stored
      ∙ ap (if_workflow service) h.has_workflow
      ∙ ap (if_aggregator service) h.submits

  -- What the three commands about a submission do for a service.
  abbrev pub Handles :
      Map ServiceId Service → Bool → Submission D → Peer → List AggregatorAction → Service → Type 0
  Handles services p2p s peer list service =
      IsHosted services s service
      × (handle_dispatcher_command services p2p (broadcast s)
          ≡ to_self s ∷ on_network p2p (publish s))
      × (handle_dispatcher_command services p2p (receive s peer)
          ≡ execute (record { submission = s; service = service; kind = standard }) ∷ [])
      × (handle_dispatcher_command services p2p (actions s list) ≡ map (spawn s service) list)

  abbrev pub Ignores :
      Map ServiceId Service → Bool → Submission D → Peer → List AggregatorAction → Type 0
  Ignores services p2p s peer list =
      (¬ ((service : Service) × IsHosted services s service))
      × (handle_dispatcher_command services p2p (broadcast s) ≡ [])
      × (handle_dispatcher_command services p2p (receive s peer) ≡ [])
      × (handle_dispatcher_command services p2p (actions s list) ≡ [])

  by_service :
      (services : Map ServiceId Service) (p2p : Bool) (s : Submission D) (peer : Peer)
      (list : List AggregatorAction) (o : Option Service)
      → extract_service_from_submission services s ≡ o
      → ((service : Service) × Handles services p2p s peer list service)
        ⊎ Ignores services p2p s peer list
  unfolding handle_dispatcher_command extract_service_from_submission
  by_service services p2p s peer list none e = inr (
    λ h. absurd (ground (arith, e, IsHosted-found services s h.0 h.1)),
    ap (λ o. with_service o (λ service. handle_broadcast p2p s)) e,
    ap (λ o. with_service o (λ service. handle_receive s service)) e,
    ap (λ o. with_service o (λ service. map (spawn s service) list)) e,
  )
  by_service services p2p s peer list (some service) e = inl (
    service,
    (
      found-IsHosted services s service (get services (service_id s)) refl e,
      ap (λ o. with_service o (λ service. handle_broadcast p2p s)) e,
      ap (λ o. with_service o (λ service. handle_receive s service)) e,
      ap (λ o. with_service o (λ service. map (spawn s service) list)) e,
    ),
  )

  -- Of a submission whose service the table has, with its workflow, which submits to an aggregator: a
  -- broadcast goes to itself and, if there is one, to the network; a receive, from whichever peer, makes
  -- the dispatcher execute the aggregator's component; each action is spawned with that service. Of any
  -- other submission all three commands do nothing.
  pub handle_dispatcher_command_lem :
      (services : Map ServiceId Service) (p2p : Bool) (s : Submission D) (peer : Peer)
      (list : List AggregatorAction)
      → ((service : Service) × Handles services p2p s peer list service)
        ⊎ Ignores services p2p s peer list
  handle_dispatcher_command_lem services p2p s peer list =
      by_service services p2p s peer list (extract_service_from_submission services s) refl
