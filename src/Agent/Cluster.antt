-- ===== src/Agent/Cluster.antt =====
-- apps/agent/internal/cluster: the observer of overlays and the mediator that hands snapshots to its
-- subscribers. Both are skeletons in the code: their `Run` only waits for the context.
use pontifex.Base.{ℕ, List, [], ◌∷◌, ◌++◌, length}
use pontifex.GoChan.{Chan, make_chan}
use pontifex.Api.{NetworkOverlay}

pub data EventType : Type 0 where
  event_add event_update event_delete : EventType

pub record Event : Type 0 where
  pub type : EventType
  pub object : NetworkOverlay

pub record Observer : Type 0 where
  pub out : Chan Event

abbrev pub new_observer : Observer
new_observer = record { out = make_chan 32 }

-- `Events`
abbrev pub events : Observer → Chan Event
events o = o.out

-- `subscribers` is the store of the channels: a channel that `Subscribe` has returned is its place
-- there.
pub record Mediator : Type 0 where
  pub observer : Observer
  pub subscribers : List (Chan (List NetworkOverlay))

abbrev pub new_mediator : Observer → Mediator
new_mediator observer = record { observer = observer; subscribers = [] }

unfoldable pub subscribe : Mediator → ℕ × Mediator
subscribe m = (length m.subscribers, record m { subscribers = m.subscribers ++ make_chan 1 ∷ [] })
