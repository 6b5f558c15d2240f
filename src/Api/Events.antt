-- ===== src/Api/Events.antt =====
-- The event stream: eventPayload and v1Events of server/orchestrator/mesh/api_v1_events.go, on the
-- objects that the publishers of server/orchestrator/mesh/server.go put into an event. The text of
-- an object is encoding/json's part, a parameter; a moment is a number, shown by the text's writer.
-- Waiting for the next event is left out: reading is a step.
use lattice_hub.Base.{
  ℕ, ◌+◌, Bool, false, ◌||◌, Option, none, some, List, [], ◌∷◌, ◌++◌, ◌==◌, if◌then◌else◌, Text,
  codes, text_eq, ok,
}
pub mod Stream
use lattice_hub.Events.{
  Event, EventType, Payload, EventBroker, Client, subscribe, unsubscribe, motion_of, publish,
  motion, node_online, health_of, node_offline, online_of, offline_of, enrolled, health,
  enrolled_of, command_ack, ack_of, route_of, route_update,
}

-- What stands in an event's object.
pub data Value : Type 0 where
  number : ℕ → Value
  string : Text → Value
  flag : Bool → Value
  null : Value
  -- A time, in RFC 3339.
  moment : ℕ → Value

abbrev pub Object : Type 0
Object = List (Text × Value)

abbrev number_or_null : Option ℕ → Value
number_or_null none = null
number_or_null (some n) = number n

-- The objects of publishMotionEvent, publishHealthEvent, checkOfflineNodes, publishEnrolledEvent,
-- handleCommandAck and handleRouteReport.
abbrev pub fields : Payload → Object
fields (motion_of id name zone hops now) =
    (codes "nodeId", number id)
    ∷ (codes "name", string name)
    ∷ (codes "zone", string zone)
    ∷ (codes "hopCount", number hops)
    ∷ (codes "timestamp", moment now)
    ∷ []
fields (health_of id name online uptime hops) =
    (codes "nodeId", number id)
    ∷ (codes "name", string name)
    ∷ (codes "online", flag online)
    ∷ (codes "uptime", number uptime)
    ∷ (codes "hopCount", number hops)
    ∷ []
fields (online_of id name) = (codes "nodeId", number id) ∷ (codes "name", string name) ∷ []
fields (offline_of id name seen) =
    (codes "nodeId", number id) ∷ (codes "name", string name) ∷ (codes "lastSeen", moment seen) ∷ []
fields (enrolled_of id name t) =
    (codes "nodeId", number id) ∷ (codes "name", string name) ∷ (codes "type", string t) ∷ []
fields (ack_of command_id id) =
    (codes "commandId", string command_id)
    ∷ (codes "nodeId", number id)
    ∷ (codes "status", string (codes "ok"))
    ∷ []
fields (route_of id parent) =
    (codes "nodeId", number id) ∷ (codes "parentId", number_or_null parent) ∷ []

abbrev has_key : Text → Object → Bool
has_key k [] = false
has_key k ((j, v) ∷ o) = text_eq j k || has_key k o

-- Every publisher's data is an object, so that eventPayload never passes it on unchanged. The
-- publisher's own timestamp stands; else it is the event's.
unfoldable pub event_payload : Event → Object
event_payload e =
    let o = fields e.payload in
    if has_key (codes "timestamp") o then o else (codes "timestamp", moment e.timestamp) ∷ o

abbrev pub type_name : EventType → Text
type_name motion = codes "motion"
type_name node_online = codes "node_online"
type_name node_offline = codes "node_offline"
type_name enrolled = codes "enrolled"
type_name health = codes "health"
type_name command_ack = codes "command_ack"
type_name route_update = codes "route_update"

module _ (json : Object → Text) where
  -- The text that is written for an event; 10 is the line feed.
  unfoldable pub event_text : Event → Text
  unfolding event_payload
  event_text e =
      codes "event: "
      ++ (type_name e.event_type
          ++ 10 ∷ (codes "data: " ++ (json (event_payload e) ++ 10 ∷ 10 ∷ [])))

abbrev take_first : Client → List Event → List Client → Option Event × List Client
take_first c [] cs = (none, c ∷ cs)
take_first c (e ∷ q) cs = (some e, record c { queue = q } ∷ cs)

-- Receiving from the channel: the oldest event, if there is one.
unfoldable pub receive : ℕ → List Client → Option Event × List Client
receive ch [] = (none, [])
receive ch (c ∷ cs) =
    let rest = receive ch cs in
    if c.channel == ch then take_first c c.queue cs else (rest.0, c ∷ rest.1)

-- What happens while a client is connected: the hub publishes, and the handler takes up what waits.
pub data Action : Type 0 where
  publishes : Event → Action
  reads : Action

abbrev sent : Option Event → List Event → List Event
sent none es = es
sent (some e) es = e ∷ es

-- The handler's loop: the events that it writes.
unfoldable pub event_loop : ℕ → List Action → EventBroker → EventBroker × List Event
unfolding receive
event_loop ch [] b = (b, [])
event_loop ch (publishes e ∷ acts) b = event_loop ch acts (publish b e)
event_loop ch (reads ∷ acts) b =
    let (e, cs) = receive ch b.clients in
    let (end, es) = event_loop ch acts (record b { clients = cs }) in (end, sent e es)

-- The handler from its subscription to the end of the request: a writer that cannot flush is
-- refused.
unfoldable pub v1_events : Bool → List Action → EventBroker → EventBroker × Option (List Event)
unfolding event_loop
v1_events can_flush acts b =
    let (b1, ch) = subscribe b in
    let (b2, es) = event_loop ch acts b1 in
    if can_flush then (unsubscribe b2 ch, some es) else (b, none)

module _ (json : Object → Text) where
  -- What the handler writes: the text of each event, one after the other.
  abbrev pub stream_text : List Event → Text
  stream_text [] = []
  stream_text (e ∷ es) = event_text json e ++ stream_text es
