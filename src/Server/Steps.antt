-- ===== src/Server/Steps.antt =====
-- The hub as a step relation: each step is one call that changes its state, from a link, from the
-- API or from the detector's timer, in an order that nothing fixes.
use lattice_hub.Server.Send.Laws.{send_message_total}
use lattice_hub.Nodes.Calls.{remove_node-Inv, remove_node-UniqueIds}
use lattice_hub.Server.Enrollment.{ApprovalParams, approve_enrollment, reject_enrollment}
use lattice_hub.Serial.{ReadError}
use lattice_hub.Protocol.{MeshMessage}
use lattice_hub.Server.Receive.{process, after_error}
use lattice_hub.Server.Send.{send_node_data, set_tx_power_preset, send_message}
use lattice_hub.Server.{Server, Env, Link, primary, secondary, Answer}
use lattice_hub.Base.{
  ℕ, ◌+◌, ◌<◌, ◌≡◌, refl, sym, ap, ◌∙◌, Option, List, [], ◌∷◌, arith, Text, Result, ok, err, subst,
}
use lattice_hub.Nodes
use lattice_hub.Nodes.{NodeInfo}
use lattice_hub.Server.Enrollment.Registry.{
  Sound, approve_enrollment-Sound, reject_enrollment-nodes,
}
use lattice_hub.Server.Receive.Registry.{handle_message-Sound}
use lattice_hub.Server.Liveness.{check_offline_nodes, check_nodes, check_node, record_frame}

module _ (uuid_parse : Text → Option (List ℕ)) where
  pub data Step : Server → Server → Type 0 where
    receives :
        (env : Env) (s : Server) (link : Link) (errors : ℕ) (r : Result ReadError MeshMessage)
        → Step s (process uuid_parse env link errors s r).0
    checks : (env : Env) (s : Server) → Step s (check_offline_nodes env s)
    approves :
        (env : Env) (s : Server) (mac_str : Text) (p : ApprovalParams)
        → p.node_id < 256
        → Step s (approve_enrollment env s mac_str p).0
    rejects : (env : Env) (s : Server) (mac_str : Text) → Step s (reject_enrollment env s mac_str).0
    sends_message : (env : Env) (s : Server) (m : MeshMessage) → Step s (send_message env s m).0
    sends_data :
        (env : Env) (s : Server) (data_type : ℕ) (bytes : List ℕ)
        → Step s (send_node_data env s data_type bytes).0
    sets_preset :
        (env : Env) (s : Server) (preset : ℕ) → Step s (set_tx_power_preset env s preset).0
    deletes :
        (s : Server) (mac : List ℕ)
        → Step s (record s { nodes = (Nodes.remove_node s.nodes mac).0 })

  pub data Steps : Server → Server → Type 0 where
    stays : (s : Server) → Steps s s
    goes : {s t u : Server} → Steps s t → Step t u → Steps s u

check_nodes-nodes :
    (env : Env) (s : Server) (ns : List NodeInfo) → (check_nodes env s ns).nodes ≡ s.nodes
unfolding check_nodes
check_nodes-nodes env s [] = refl
check_nodes-nodes env s (n ∷ ns) = check_nodes-nodes env (check_node env s n) ns ∙ one env s n
  where
    one : (env : Env) (s : Server) (n : NodeInfo) → (check_node env s n).nodes ≡ s.nodes
    one env s n = ground arith

check_offline_nodes-nodes : (env : Env) (s : Server) → (check_offline_nodes env s).nodes ≡ s.nodes
unfolding check_offline_nodes
check_offline_nodes-nodes env s = check_nodes-nodes env s (Nodes.get_all_nodes s.nodes)

pub send_message-nodes :
    (env : Env) (s : Server) (m : MeshMessage) → (send_message env s m).0.nodes ≡ s.nodes
send_message-nodes env s m =
    ap (λ (a : Answer). a.0.nodes) (send_message_total env s m) ∙ ground arith

pub send_node_data-nodes :
    (env : Env) (s : Server) (data_type : ℕ) (bytes : List ℕ)
    → (send_node_data env s data_type bytes).0.nodes ≡ s.nodes
unfolding send_node_data
send_node_data-nodes env s data_type bytes = ground arith

pub set_tx_power_preset-nodes :
    (env : Env) (s : Server) (preset : ℕ) → (set_tx_power_preset env s preset).0.nodes ≡ s.nodes
unfolding set_tx_power_preset
set_tx_power_preset-nodes env s preset = ground arith

after_error-nodes : (link : Link) (n : ℕ) (s : Server) → (after_error link n s).nodes ≡ s.nodes
after_error-nodes primary n s = ground arith
after_error-nodes secondary n s = ground arith

record_frame-nodes :
    (env : Env) (s : Server) (link : Link) → (record_frame env s link).nodes ≡ s.nodes
unfolding record_frame
record_frame-nodes env s primary = refl
record_frame-nodes env s secondary = refl

module _ (uuid_parse : Text → Option (List ℕ)) where
  process-Sound :
      (env : Env) (link : Link) (errors : ℕ) (s : Server) (r : Result ReadError MeshMessage)
      → Sound s.nodes
      → Sound (process uuid_parse env link errors s r).0.nodes
  unfolding process
  process-Sound env link errors s (err e) v =
      subst Sound (sym (after_error-nodes link (errors + 1) s)) v
  process-Sound env link errors s (ok m) v =
      handle_message-Sound uuid_parse env (record_frame env s link) m
        (subst Sound (sym (record_frame-nodes env s link)) v)

  Step-Sound : {s t : Server} → Step uuid_parse s t → Sound s.nodes → Sound t.nodes
  Step-Sound (receives env s link errors r) v = process-Sound env link errors s r v
  Step-Sound (checks env s) v = subst Sound (sym (check_offline_nodes-nodes env s)) v
  Step-Sound (approves env s t p h) v = approve_enrollment-Sound env s t p h v
  Step-Sound (rejects env s t) v = subst Sound (sym (reject_enrollment-nodes env s t)) v
  Step-Sound (sends_message env s m) v = subst Sound (sym (send_message-nodes env s m)) v
  Step-Sound (sends_data env s t b) v = subst Sound (sym (send_node_data-nodes env s t b)) v
  Step-Sound (sets_preset env s p) v = subst Sound (sym (set_tx_power_preset-nodes env s p)) v
  Step-Sound (deletes s mac) v = record {
    inv = remove_node-Inv s.nodes mac v.inv;
    unique = remove_node-UniqueIds s.nodes mac v.unique;
  }

  -- Any number of steps in any order keeps a node registry in order that was so before: each entry
  -- stands under the text of its address, IDs are bytes, and no two live nodes share an ID.
  pub Steps-Sound : {s t : Server} → Steps uuid_parse s t → Sound s.nodes → Sound t.nodes
  Steps-Sound (stays s) v = v
  Steps-Sound (goes before last) v = Step-Sound last (Steps-Sound before v)
