-- ===== src/Metrics/Gauge.antt =====
-- The gauge of the serial link against what the hub receives.
use lattice_hub.Server.Receive.{
  health_of_node, health_answer, process, handle_message, dispatch, handle_adapter_data,
  handle_serial_data, handle_pir_data, handle_route_report, handle_health_report,
  handle_command_ack, log_message,
}
use lattice_hub.Server.Liveness.{
  publish_health_event, record_frame, is_master_online, is_primary_online, frame_is_fresh,
}
use lattice_hub.Builder.{parse_health_report, ParseError, HealthReport}
use lattice_hub.Nodes.{NodeInfo}
use lattice_hub.Serial.{ReadError}
use lattice_hub.Nodes
use lattice_hub.Auth
use lattice_hub.Mac.{hex_encode, parse_mac}
use lattice_hub.Auth
use lattice_hub.Protocol.{MeshMessage}
use lattice_hub.Base.{
  ℕ, ◌<◌, ◌≡◌, refl, ◌∙◌, inl, inr, Bool, true, false, Option, none, some, List, [], ◌∷◌, arith,
  Text, Option-cases, Result, ok, err, take,
}
use lattice_hub.Metrics.{serial_connected}
use lattice_hub.Server.{Server, Env, Link, primary, secondary, incoming}
use lattice_hub.Server.Enrollment.{
  handle_enrollment_request, approve_enrollment, admit, announce, save_auth, send_join_frames,
  resend_join_ack, after_request, ApprovalParams, approved_by, inherited_type, swapped, chosen_id,
  approve_nodes, known_params,
}

abbrev shown : Server → Option Bool
shown s = serial_connected s.effects

send_join_frames-shown :
    (env : Env) (s : Server) (mac key : List ℕ) (id inherited : ℕ)
    → shown (send_join_frames env s mac key id inherited) ≡ shown s
unfolding send_join_frames
send_join_frames-shown env s mac key id inherited = ground arith

save_auth-shown : (env : Env) (s : Server) → shown (save_auth env s).0 ≡ shown s
save_auth-shown env s = ground arith

announce-shown :
    (env : Env) (s : Server) (mac : List ℕ) (t : Text) → shown (announce env s mac t) ≡ shown s
announce-shown env s mac t = ground arith

admit-shown :
    (env : Env) (s : Server) (a : Auth.NodeAuth) (p : ApprovalParams)
    → shown (admit env s a p).0 ≡ shown s
unfolding admit
admit-shown env s a p =
    let id = chosen_id s.nodes p in
    let s1 = record s { nodes = approve_nodes s.nodes p a.mac } in
    let s2 = announce env s1 a.mac p.adapter_type_str in
    let t = inherited_type p (swapped s.nodes p a.mac) in
    save_auth-shown env (send_join_frames env s2 a.mac a.public_key id t)
    ∙ send_join_frames-shown env s2 a.mac a.public_key id t
    ∙ announce-shown env s1 a.mac p.adapter_type_str

approve_enrollment-shown :
    (env : Env) (s : Server) (t : Text) (p : ApprovalParams)
    → shown (approve_enrollment env s t p).0 ≡ shown s
unfolding approve_enrollment
approve_enrollment-shown env s t p = approved (Auth.approve env.now s.auth t)
  where
    approved :
        (r : Auth.Registry × Result Auth.AuthError Auth.NodeAuth)
        → shown (approved_by env s p r).0 ≡ shown s
    approved (auth, err e) = refl
    approved (auth, ok a) = admit-shown env (record s { auth = auth }) a p

resend_join_ack-shown :
    (env : Env) (s : Server) (t : Text) → shown (resend_join_ack env s t).0 ≡ shown s
unfolding resend_join_ack
resend_join_ack-shown env s t = elim (Option-cases (parse_mac t)) [
  | inl e ↦ rw (e, resend_join_ack) refl
  | inr (mac, e) ↦
      rw (e, resend_join_ack)
        (approve_enrollment-shown env s t (known_params (Nodes.get_node s.nodes mac)))
]

after_request-shown :
    (env : Env) (s : Server) (mac key : List ℕ) (e : Option Auth.AuthError)
    → shown (after_request env s mac key e).0 ≡ shown s
after_request-shown env s mac key none = ground arith
after_request-shown env s mac key (some Auth.already_approved_same_key) =
    resend_join_ack-shown env s (hex_encode mac)
after_request-shown env s mac key (some (Auth.not_found x)) = refl

handle_enrollment_request-shown :
    (env : Env) (s : Server) (m : MeshMessage)
    → shown (handle_enrollment_request env s m).0 ≡ shown s
unfolding handle_enrollment_request
handle_enrollment_request-shown env s m =
    let mac = take 6 m.origin in
    let (auth, e) = Auth.add_pending env.now s.auth mac m.public_key in
    ground (arith, after_request-shown env (record s { auth = auth }) mac m.public_key e)

handle_pir_data-shown :
    (env : Env) (s : Server) (m : MeshMessage) → shown (handle_pir_data env s m).0 ≡ shown s
unfolding handle_pir_data
handle_pir_data-shown env s m = ground arith

handle_route_report-shown :
    (env : Env) (s : Server) (m : MeshMessage) → shown (handle_route_report env s m) ≡ shown s
unfolding handle_route_report
handle_route_report-shown env s m = ground arith

health_of_node-shown :
    (env : Env) (s : Server) (o : Option NodeInfo) → shown (health_of_node env s o) ≡ shown s
unfolding publish_health_event
health_of_node-shown env s none = refl
health_of_node-shown env s (some n) = ground arith

handle_health_report-shown :
    (env : Env) (s : Server) (m : MeshMessage) → shown (handle_health_report env s m).0 ≡ shown s
unfolding handle_health_report
handle_health_report-shown env s m = answered (parse_health_report m)
  where
    answered : (r : Result ParseError HealthReport) → shown (health_answer env s r).0 ≡ shown s
    answered (err e) = refl
    answered (ok h) =
        let nodes = Nodes.update_node env.now s.nodes h.mac h.adapter_type h.uptime h.hop_count in
        health_of_node-shown env (record s { nodes = nodes }) (Nodes.get_node nodes h.mac)

log_message-shown :
    (env : Env) (s : Server) (m : MeshMessage) → shown (log_message env s incoming m) ≡ shown s
unfolding log_message
log_message-shown env s m = ground arith

online :
    (env : Env) (s : Server)
    → 0 < env.now
    → 0 < s.health_timeout
    → is_master_online env (record_frame env s primary) ≡ true
unfolding record_frame is_master_online is_primary_online frame_is_fresh
online env s pos timeout = ground arith

module _ (uuid_parse : Text → Option (List ℕ)) where
  handle_command_ack-shown :
      (env : Env) (s : Server) (m : MeshMessage)
      → shown (handle_command_ack uuid_parse env s m) ≡ shown s
  unfolding handle_command_ack
  handle_command_ack-shown env s m = ground arith

  handle_adapter_data-shown :
      (env : Env) (s : Server) (m : MeshMessage)
      → shown (handle_adapter_data uuid_parse env s m).0 ≡ shown s
  unfolding handle_adapter_data handle_serial_data
  handle_adapter_data-shown env s m = ground (
    arith,
    handle_command_ack-shown env s m,
    handle_health_report-shown env s m,
    handle_pir_data-shown env s m,
  )

  handle_message-shown :
      (env : Env) (s : Server) (m : MeshMessage)
      → shown (handle_message uuid_parse env s m).0 ≡ shown s
  unfolding handle_message dispatch
  handle_message-shown env s m =
      let t = log_message env s incoming m in
      ground (
        arith,
        handle_adapter_data-shown env t m,
        handle_enrollment_request-shown env t m,
        handle_route_report-shown env t m,
        log_message-shown env s m,
      )

  -- One round of a link's messageProcessor, with the errors in a row before it.
  pub record Round : Type 0 where
    pub env : Env
    pub link : Link
    pub errors : ℕ
    pub read : Result ReadError MeshMessage

  abbrev pub rounds : List Round → Server → Server
  rounds [] s = s
  rounds (r ∷ rs) s = rounds rs (process uuid_parse r.env r.link r.errors s r.read).0

  process-shown :
      (env : Env) (link : Link) (errors : ℕ) (s : Server) (r : Result ReadError MeshMessage)
      → shown s ≡ some false
      → shown (process uuid_parse env link errors s r).0 ≡ some false
  unfolding process record_frame
  process-shown env primary errors s (ok m) h =
      handle_message-shown env (record_frame env s primary) m ∙ h
  process-shown env secondary errors s (ok m) h =
      handle_message-shown env (record_frame env s secondary) m ∙ h
  process-shown env primary errors s (err e) h = ground arith
  process-shown env secondary errors s (err e) h = ground arith

  rounds-shown :
      (rs : List Round) (s : Server) → shown s ≡ some false → shown (rounds rs s) ≡ some false
  rounds-shown [] s h = h
  rounds-shown (r ∷ rs) s h = rounds-shown rs _ (process-shown r.env r.link r.errors s r.read h)

  first :
      (env : Env) (s : Server) (e : ReadError)
      → shown (process uuid_parse env primary 5 s (err e)).0 ≡ some false
  unfolding process
  first env s e = refl

  -- The hub after the sixth error in a row on the primary link, and whatever the links bring then.
  abbrev pub after_loss : Env → ReadError → List Round → Server → Server
  after_loss env e rs s = rounds rs (process uuid_parse env primary 5 s (err e)).0

  -- After six errors in a row on the primary link the gauge says that the link is lost, and it says
  -- so whatever the links bring from then on; also after a frame on the primary, by which the
  -- master counts as online.
  pub after_loss_lem :
      (env : Env) (s : Server) (e : ReadError) (rs : List Round) (now : Env)
      → 0 < now.now
      → 0 < (after_loss env e rs s).health_timeout
      → let t = after_loss env e rs s in
        (serial_connected t.effects ≡ some false)
        × (serial_connected (record_frame now t primary).effects ≡ some false)
        × (is_master_online now (record_frame now t primary) ≡ true)
  unfolding record_frame
  after_loss_lem env s e rs now pos timeout =
      let lost : shown (after_loss env e rs s) ≡ some false =
        rounds-shown rs (process uuid_parse env primary 5 s (err e)).0 (first env s e) in
      (lost, lost, online now (after_loss env e rs s) pos timeout)
