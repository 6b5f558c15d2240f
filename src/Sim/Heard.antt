-- ===== src/Sim/Heard.antt =====
-- What the hub reads in the frames of a simulated node: Sim.Frames against Builder and
-- Server.Receive.
use lattice_hub.Base.{
  ℕ, ◌+◌, ◌*◌, ◌<◌, ◌≡◌, refl, ap, ◌∙◌, inl, inr, false, List, [], ◌∷◌, arith, ltb, if◌then◌else◌,
  length, Bool-cases, or_else, ok, length-append, All, six-elements,
}
use lattice_hub.Protocol.{low_byte, sign_extend, get_route_len, get_route_path}
use lattice_hub.Protocol.Codec.{uint32-put_uint32}
use lattice_hub.Sim.{VirtualNode}
use lattice_hub.Sim.Frames.{path_of, health_msg, route_report_msg, concat}
use lattice_hub.Builder.{parse_health_report}
use lattice_hub.Server.{Env, Server}
use lattice_hub.Server.Receive.{relay_macs, handle_route_report, route_event}
use lattice_hub.Nodes

type_back : (t : ℕ) → t < 128 → sign_extend (low_byte t) ≡ t
unfolding sign_extend low_byte
type_back t h = ground arith

-- The hub reads in a health frame what the node put there: its address, its type, its uptime, and
-- one hop more than the relays on its route. The type is below 128 and the uptime below 2 ^ 32.
parse_health_report-health_msg :
    (n : VirtualNode)
    → length n.mac ≡ 6
    → n.adapter_type < 128
    → n.uptime < 4294967296
    → parse_health_report (health_msg n)
      ≡ ok (record {
        mac = n.mac;
        adapter_type = n.adapter_type;
        uptime = n.uptime;
        hop_count = length n.route_path + 1;
        origin_mac = n.mac;
      })
unfolding parse_health_report health_msg
parse_health_report-health_msg n h k u =
    let (a0, a1, a2, a3, a4, a5, e) = six-elements n.mac h in
    rw (e, type_back n.adapter_type k, uint32-put_uint32 n.uptime u) refl

relay_macs-concat :
    (ps : List (List ℕ)) → All (λ p. length p ≡ 6) ps → relay_macs (length ps) (concat ps) ≡ ps
unfolding relay_macs
relay_macs-concat [] h = refl
relay_macs-concat (p ∷ ps) h =
    let (a0, a1, a2, a3, a4, a5, e) = six-elements p h.0 in
    rw e (ap (◌∷◌ (a0 ∷ a1 ∷ a2 ∷ a3 ∷ a4 ∷ a5 ∷ [])) (relay_macs-concat ps h.1))

length-concat :
    (ps : List (List ℕ)) → All (λ p. length p ≡ 6) ps → length (concat ps) ≡ length ps * 6
length-concat [] h = refl
length-concat (p ∷ ps) h = length-append p (concat ps) ∙ omega (arith, h.0, length-concat ps h.1)

path_lem : (n : VirtualNode) → get_route_path (route_report_msg n) ≡ concat n.route_path
unfolding route_report_msg
path_lem n = by_path n.route_path
  where
    by_path : (ps : List (List ℕ)) → or_else (path_of ps) [] ≡ concat ps
    by_path [] = refl
    by_path (p ∷ ps) = refl

length_lem : (n : VirtualNode) → get_route_len (route_report_msg n) ≡ length n.route_path
unfolding route_report_msg
length_lem n = refl

enough : (k : ℕ) → ltb (k * 6) (k * 6) ≡ false
enough k = ground arith

-- The hub takes over the route that a node reports, relay by relay and in order, as long as there
-- are at most ten relays; a longer route changes nothing.
handle_route_report-route_report_msg :
    (env : Env) (s : Server) (n : VirtualNode)
    → All (λ p. length p ≡ 6) n.route_path
    → handle_route_report env s (route_report_msg n) ≡ (
        if ltb 10 (length n.route_path)
        then s
        else let s1 = record s { nodes = Nodes.update_node_route s.nodes n.mac n.route_path } in
          route_event env s1 (Nodes.get_node s1.nodes n.mac))
unfolding handle_route_report route_report_msg
handle_route_report-route_report_msg env s n h = elim (Bool-cases (ltb 10 (length n.route_path))) [
  | inl e ↦ rw (length_lem n, e) refl
  | inr e ↦
      rw
        (
          length_lem n,
          path_lem n,
          e,
          length-concat n.route_path h,
          relay_macs-concat n.route_path h,
          enough (length n.route_path),
        )
        refl
]
