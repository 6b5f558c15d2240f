-- ===== src/Events.antt =====
-- The in-process event bus: server/orchestrator/mesh/event_broker.go. A subscriber's channel is a
-- number and the queue of events that it has not received yet; the lock makes each method one step.
pub mod Delivery
use lattice_hub.Base.{
  ℕ, ◌+◌, Bool, Option, none, some, List, [], ◌∷◌, ◌++◌, ltb, ◌==◌, if◌then◌else◌, Text, length,
}

pub data EventType : Type 0 where
  motion node_online node_offline enrolled health command_ack route_update : EventType

-- The fields that the hub puts into an event's JSON object.
pub data Payload : Type 0 where
  motion_of : ℕ → Text → Text → ℕ → ℕ → Payload
  health_of : ℕ → Text → Bool → ℕ → ℕ → Payload
  online_of : ℕ → Text → Payload
  offline_of : ℕ → Text → ℕ → Payload
  enrolled_of : ℕ → Text → Text → Payload
  ack_of : Text → ℕ → Payload
  route_of : ℕ → Option ℕ → Payload

pub record Event : Type 0 where
  pub event_type : EventType
  pub payload : Payload
  pub timestamp : ℕ

-- The capacity of a subscriber's channel.
abbrev buffer_size : ℕ
buffer_size = 32

pub record Client : Type 0 where
  pub channel : ℕ
  pub queue : List Event

pub record EventBroker : Type 0 where
  pub clients : List Client
  pub next_channel : ℕ

abbrev pub new_broker : EventBroker
new_broker = record { clients = []; next_channel = 0 }

unfoldable pub subscribe : EventBroker → EventBroker × ℕ
subscribe b =
    let c : Client = record { channel = b.next_channel; queue = [] } in
    (record { clients = c ∷ b.clients; next_channel = b.next_channel + 1 }, b.next_channel)

unfoldable pub remove : ℕ → List Client → List Client
remove ch [] = []
remove ch (c ∷ cs) = let rest = remove ch cs in if c.channel == ch then rest else c ∷ rest

unfoldable pub unsubscribe : EventBroker → ℕ → EventBroker
unfolding remove
unsubscribe b ch = record b { clients = remove ch b.clients }

-- `select { case ch <- e: default: }`.
unfoldable pub offer : Event → List Event → List Event
offer e q = if ltb (length q) buffer_size then q ++ e ∷ [] else q

unfoldable pub offer_all : Event → List Client → List Client
unfolding offer
offer_all e [] = []
offer_all e (c ∷ cs) = record c { queue = offer e c.queue } ∷ offer_all e cs

unfoldable pub publish : EventBroker → Event → EventBroker
unfolding offer_all
publish b e = record b { clients = offer_all e b.clients }

-- The queue of a subscriber, if it is subscribed.
unfoldable pub queue_of : ℕ → List Client → Option (List Event)
queue_of ch [] = none
queue_of ch (c ∷ cs) = if c.channel == ch then some c.queue else queue_of ch cs
