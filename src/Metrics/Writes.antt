-- ===== src/Metrics/Writes.antt =====
-- The counter of Kafka writes against the event store's own account, and the status of a request.
use lattice_hub.Base.{
  ℕ, ◌≡◌, refl, inl, inr, Bool, true, false, not, ◌&&◌, Option, List, [], ◌∷◌, if◌then◌else◌, Text,
  codes, Bool-cases, Option-cases, is_some,
}
use lattice_hub.Metrics.{
  record_kafka_write, Call, writes_header, writes_body, flushes_writer, StatusWriter, write_call,
  serve_with, instrument_handler, new_writer,
}
use lattice_hub.EventStore.{Store, write_message, next_count, record_write_failure, record_failure}

-- The metrics count a write as an error exactly if the store never connected. A write that a
-- connected store's writer refuses is counted as a success, while the store counts it as failed.
write_message-labels :
    (now : ℕ) (answer : Option Text) (t : Text) (s : Store)
    → let (u, e) = write_message now answer t s in
      (record_kafka_write t e ≡ (t, if s.has_writer then codes "success" else codes "error"))
      × (u.stats.failed_writes ≡ (
          if s.has_writer && not (is_some answer)
          then s.stats.failed_writes
          else next_count s.stats.failed_writes))
unfolding write_message record_kafka_write record_write_failure record_failure
write_message-labels now answer t s = elim (Bool-cases s.has_writer) [
  | inr e ↦ rw e (refl, refl)
  | inl e ↦ elim (Option-cases answer) [
    | inl q ↦ rw (e, q) (refl, refl)
    | inr (f, q) ↦ rw (e, q) (refl, refl)
  ]
]

-- The status that net/http sends: that of the first header, or 200.
abbrev first_status : List Call → ℕ
first_status [] = 200
first_status (writes_header code ∷ cs) = code
first_status (writes_body b ∷ cs) = 200
first_status (flushes_writer ∷ cs) = 200

abbrev NoHeader : List Call → Type 0
NoHeader [] = Unit
NoHeader (writes_header code ∷ cs) = ⊥
NoHeader (writes_body b ∷ cs) = NoHeader cs
NoHeader (flushes_writer ∷ cs) = NoHeader cs

-- No header is written but as the first thing.
abbrev HeaderFirst : List Call → Type 0
HeaderFirst [] = Unit
HeaderFirst (c ∷ cs) = NoHeader cs

serve_with-status :
    (can_flush : Bool) (w : StatusWriter) (cs : List Call)
    → NoHeader cs
    → (serve_with can_flush w cs).status ≡ w.status
unfolding serve_with write_call
serve_with-status f w [] h = refl
serve_with-status f w (writes_header code ∷ cs) h = absurd h
serve_with-status f w (writes_body b ∷ cs) h =
    serve_with-status f (write_call f w (writes_body b)) cs h
serve_with-status true w (flushes_writer ∷ cs) h =
    serve_with-status true (write_call true w flushes_writer) cs h
serve_with-status false w (flushes_writer ∷ cs) h = serve_with-status false w cs h

-- A request is counted with the status that the client is sent, where the handler writes no header
-- but as the first thing.
instrument_handler-status :
    (endpoint method : Text) (duration : ℕ) (can_flush : Bool) (cs : List Call)
    → HeaderFirst cs
    → (instrument_handler endpoint method duration can_flush cs).status ≡ first_status cs
unfolding instrument_handler serve_with write_call
instrument_handler-status ep m d f [] h = refl
instrument_handler-status ep m d f (writes_header code ∷ cs) h =
    serve_with-status f (write_call f new_writer (writes_header code)) cs h
instrument_handler-status ep m d f (writes_body b ∷ cs) h =
    serve_with-status f (write_call f new_writer (writes_body b)) cs h
instrument_handler-status ep m d true (flushes_writer ∷ cs) h =
    serve_with-status true (write_call true new_writer flushes_writer) cs h
instrument_handler-status ep m d false (flushes_writer ∷ cs) h =
    serve_with-status false new_writer cs h
