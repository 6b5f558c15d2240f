-- ===== src/Server/Enrollment/Interleaved.antt =====
-- Approvals that run at the same time. ApproveEnrollment of server/orchestrator/mesh/server.go
-- holds no lock of its own: each of its calls of the node registry (NextFreeNodeID, GetNodeByID,
-- AssignNode, MarkReplaced) is one step, and the API's goroutines may take turns between them. What
-- the approval does besides (events, frames, the saved file) leaves the node registry alone.
use lattice_hub.Base.{
  ℕ, zero, suc, ◌<◌, ◌≡◌, ◌≢◌, refl, ◌∙◌, true, false, Option, none, some, List, [], ◌∷◌, arith,
  if◌then◌else◌, Text, text_eq, text_eq_iff, All, text_eq_refl,
}
use lattice_hub.Base.Maps.{lookup, lookup-insert}
use lattice_hub.Mac.{mac_to_string}
use lattice_hub.Nodes
use lattice_hub.Nodes.{NodeInfo, assign_node, new_node, name_or}
use lattice_hub.Nodes.Calls.{assign_node-Inv}
use lattice_hub.Nodes.Invariant.{Inv, UniqueIds, is_active}
use lattice_hub.Server.Enrollment.{
  ApprovalParams, approve_nodes, swapped, inherit, retire, chosen_id,
}
use lattice_hub.Server.Enrollment.Swap.{
  approve_nodes-UniqueIds, approve_nodes-Inv, chosen_id-byte, retire-Inv,
}

-- How far an approval has come, with what its local variables hold.
pub data Stage : Type 0 where
  begins : Stage
  has_chosen : ℕ → Stage
  has_looked : ℕ → Option NodeInfo → Stage
  has_assigned : Option NodeInfo → Stage
  ends : Stage

pub record Approval : Type 0 where
  pub mac : List ℕ
  pub params : ApprovalParams
  pub stage : Stage

abbrev pub new_approval : List ℕ → ApprovalParams → Approval
new_approval mac p = record { mac = mac; params = p; stage = begins }

abbrev call_from : Nodes.Registry → List ℕ → ApprovalParams → Stage → Nodes.Registry × Stage
call_from r mac p begins = (r, has_chosen (chosen_id r p))
call_from r mac p (has_chosen id) = (r, has_looked id (swapped r p mac))
call_from r mac p (has_looked id old) =
    let q = inherit p old in (assign_node r mac id q.name q.zone, has_assigned old)
call_from r mac p (has_assigned old) = (retire r old mac, ends)
call_from r mac p ends = (r, ends)

-- The next call of an approval.
unfoldable next_call : Nodes.Registry → Approval → Nodes.Registry × Approval
next_call r a = let (s, st) = call_from r a.mac a.params a.stage in (s, record a { stage = st })

-- The registry, and the approvals that are under way.
abbrev pub Approvals : Type 0
Approvals = Nodes.Registry × List Approval

abbrev with_first : Nodes.Registry × Approval → List Approval → Approvals
with_first (r, a) others = (r, a ∷ others)

abbrev behind : Approval → Approvals → Approvals
behind a (r, others) = (r, a ∷ others)

-- The turn of the approval at a position.
unfoldable pub turn : ℕ → Nodes.Registry → List Approval → Approvals
unfolding next_call
turn i r [] = (r, [])
turn zero r (a ∷ others) = with_first (next_call r a) others
turn (suc i) r (a ∷ others) = behind a (turn i r others)

unfoldable pub run_turns : List ℕ → Approvals → Approvals
unfolding turn
run_turns [] (r, others) = (r, others)
run_turns (i ∷ is) (r, others) = run_turns is (turn i r others)

-- An approval that nobody interrupts does what ApproveEnrollment does in one step.
alone :
    (r : Nodes.Registry) (a b : Approval)
    → a.stage ≡ begins
    → run_turns (0 ∷ 0 ∷ 0 ∷ 0 ∷ []) (r, a ∷ b ∷ [])
      ≡ (approve_nodes r a.params a.mac, record a { stage = ends } ∷ b ∷ [])
unfolding run_turns next_call turn approve_nodes
alone r a b h = rw h refl

abbrev IsSmall : Stage → Type 0
IsSmall begins = Unit
IsSmall (has_chosen id) = id < 256
IsSmall (has_looked id old) = id < 256
IsSmall (has_assigned old) = Unit
IsSmall ends = Unit

-- The ID asked for, and the one chosen, are bytes.
abbrev IsByteSized : Approval → Type 0
IsByteSized a = (a.params.node_id < 256) × IsSmall a.stage

call_from-Inv :
    (r : Nodes.Registry) (mac : List ℕ) (p : ApprovalParams) (st : Stage)
    → p.node_id < 256
    → IsSmall st
    → Inv r
    → Inv (call_from r mac p st).0 × IsSmall (call_from r mac p st).1
call_from-Inv r mac p begins h i v = (v, chosen_id-byte r p h)
call_from-Inv r mac p (has_chosen id) h i v = (v, i)
call_from-Inv r mac p (has_looked id old) h i v =
    (assign_node-Inv r mac id (inherit p old).name (inherit p old).zone i v, tt)
call_from-Inv r mac p (has_assigned old) h i v = (retire-Inv r old mac v, tt)
call_from-Inv r mac p ends h i v = (v, tt)

turn-Inv :
    (i : ℕ) (r : Nodes.Registry) (others : List Approval)
    → All IsByteSized others
    → Inv r
    → Inv (turn i r others).0 × All IsByteSized (turn i r others).1
unfolding turn next_call
turn-Inv i r [] h v = (v, tt)
turn-Inv zero r (a ∷ others) h v =
    let (w, small) = call_from-Inv r a.mac a.params a.stage h.0.0 h.0.1 v in
    (w, ((h.0.0, small), h.1))
turn-Inv (suc i) r (a ∷ others) h v = let (w, rest) = turn-Inv i r others h.1 v in (w, (h.0, rest))

-- Whatever turns approvals take, the registry stays in order.
run_turns-Inv :
    (turns : List ℕ) (r : Nodes.Registry) (others : List Approval)
    → All IsByteSized others
    → Inv r
    → Inv (run_turns turns (r, others)).0
unfolding run_turns
run_turns-Inv [] r others h v = v
run_turns-Inv (i ∷ turns) r others h v =
    let (w, small) = turn-Inv i r others h v in
    run_turns-Inv turns (turn i r others).0 (turn i r others).1 small w

-- The one after the other.
abbrev pub in_sequence : List ℕ
in_sequence = 0 ∷ 0 ∷ 0 ∷ 0 ∷ 1 ∷ 1 ∷ 1 ∷ 1 ∷ []

abbrev pub in_turns : List ℕ
in_turns = 0 ∷ 1 ∷ 0 ∷ 1 ∷ 0 ∷ 1 ∷ 0 ∷ 1 ∷ []

sequence_lem :
    (r : Nodes.Registry) (a b : List ℕ) (p q : ApprovalParams)
    → (run_turns in_sequence (r, new_approval a p ∷ new_approval b q ∷ [])).0
      ≡ approve_nodes (approve_nodes r p a) q b
unfolding run_turns next_call turn approve_nodes
sequence_lem r a b p q = refl

turns_lem :
    (r : Nodes.Registry) (a b : List ℕ) (p q : ApprovalParams)
    → p.node_id ≡ 0
    → q.node_id ≡ 0
    → let id = Nodes.next_free_node_id r in
      (run_turns in_turns (r, new_approval a p ∷ new_approval b q ∷ [])).0
      ≡ assign_node (assign_node r a id p.name p.zone) b id q.name q.zone
unfolding run_turns next_call turn
turns_lem r a b p q zp zq = rw (zp, zq) refl

-- The entry of a node that the registry has not seen before.
abbrev fresh : List ℕ → ℕ → Text → Text → NodeInfo
fresh mac id name zone = record (new_node mac) {
  node_id = id;
  name = name_or name (mac_to_string mac);
  zone = zone;
}

fresh-active :
    (mac : List ℕ) (id : ℕ) (name zone : Text) → 0 < id → is_active (fresh mac id name zone) ≡ true
unfolding text_eq
fresh-active mac id name zone h = ground arith

lookup-fresh :
    (r : Nodes.Registry) (mac : List ℕ) (id : ℕ) (name zone k : Text)
    → lookup (mac_to_string mac) r ≡ none
    → lookup k (assign_node r mac id name zone)
      ≡ (if text_eq (mac_to_string mac) k then some (fresh mac id name zone) else lookup k r)
unfolding assign_node
lookup-fresh r mac id name zone k h = lookup-insert (mac_to_string mac) k _ r ∙ rw h refl

-- Two entries of one ID.
twice :
    (r : Nodes.Registry) (a b : List ℕ) (id : ℕ) (m y n z : Text)
    → lookup (mac_to_string a) r ≡ none
    → lookup (mac_to_string b) r ≡ none
    → mac_to_string a ≢ mac_to_string b
    → 0 < id
    → ¬ UniqueIds (assign_node (assign_node r a id m y) b id n z)
twice r a b id m y n z fa fb ne pos u = ne (
    u.distinct (mac_to_string a) (mac_to_string b) (fresh a id m y) (fresh b id n z) first second
      (fresh-active a id m y pos) (fresh-active b id n z pos) refl)
  where
    apart : text_eq (mac_to_string a) (mac_to_string b) ≡ false
    apart = ground (arith, ne, text_eq_iff (mac_to_string a) (mac_to_string b))

    apart_back : text_eq (mac_to_string b) (mac_to_string a) ≡ false
    apart_back = ground (arith, ne, text_eq_iff (mac_to_string b) (mac_to_string a))

    unseen : lookup (mac_to_string b) (assign_node r a id m y) ≡ none
    unseen = lookup-fresh r a id m y (mac_to_string b) fa ∙ rw apart fb

    first :
        lookup (mac_to_string a) (assign_node (assign_node r a id m y) b id n z)
        ≡ some (fresh a id m y)
    first =
        lookup-fresh (assign_node r a id m y) b id n z (mac_to_string a) unseen
        ∙ rw apart_back (
            lookup-fresh r a id m y (mac_to_string a) fa ∙ rw (text_eq_refl (mac_to_string a)) refl)

    second :
        lookup (mac_to_string b) (assign_node (assign_node r a id m y) b id n z)
        ≡ some (fresh b id n z)
    second =
        lookup-fresh (assign_node r a id m y) b id n z (mac_to_string b) unseen
        ∙ rw (text_eq_refl (mac_to_string b)) refl

-- Two approvals that leave the ID open, of two nodes that a registry in order has not seen before,
-- while an ID is free. Done one after the other, they keep live IDs distinct. Taking turns call by
-- call, so that both choose before either assigns, they do not.
pub run_turns-UniqueIds :
    (r : Nodes.Registry) (a b : List ℕ) (p q : ApprovalParams)
    → Inv r
    → UniqueIds r
    → p.node_id ≡ 0
    → q.node_id ≡ 0
    → lookup (mac_to_string a) r ≡ none
    → lookup (mac_to_string b) r ≡ none
    → mac_to_string a ≢ mac_to_string b
    → 0 < Nodes.next_free_node_id r
    → let both : Approvals = (r, new_approval a p ∷ new_approval b q ∷ []) in
      UniqueIds (run_turns in_sequence both).0 × (¬ UniqueIds (run_turns in_turns both).0)
run_turns-UniqueIds r a b p q v u zp zq fa fb ne pos =
    let once = approve_nodes r p a in
    let byte : p.node_id < 256 = omega (arith, zp) in
    (
      rw (sequence_lem r a b p q) (
          approve_nodes-UniqueIds once q b (approve_nodes-Inv r p a byte v)
            (approve_nodes-UniqueIds r p a v u)),
      rw (turns_lem r a b p q zp zq)
          (twice r a b (Nodes.next_free_node_id r) p.name p.zone q.name q.zone fa fb ne pos),
    )
