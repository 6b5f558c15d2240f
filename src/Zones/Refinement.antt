-- ===== src/Zones/Refinement.antt =====
-- The zone registry against what it promises: a name for each ID.
use lattice_hub.Base.{
  ◌≡◌, refl, sym, ◌∙◌, inl, inr, Bool, true, false, not, ◌&&◌, Option, none, some, List, [], ◌∷◌,
  arith, if◌then◌else◌, Text, text_eq, text_eq_iff, Option-cases, is_some, Result, ok, err,
}
use lattice_hub.Base.Maps.{lookup, insert, lookup-insert, lookup-erase}
use lattice_hub.Zones.{already_exists, Zone, ZoneRegistry, zone_slug, add, update, delete}
use lattice_hub.Zones.Laws.{Op, adds, updates, deletes, step}

-- The abstract registry.
abbrev Names : Type 0
Names = Text → Option Text

abbrev name_in : Option Zone → Option Text
name_in none = none
name_in (some z) = some z.name

abbrev pub names_of : ZoneRegistry → Names
names_of zones id = name_in (lookup id zones)

-- What each operation does to the names: a new name is taken only for an ID that is free, an ID
-- that is not there is not renamed.
abbrev promised : Names → Op → Names
promised ns (adds name) id =
    if text_eq (zone_slug name) id && not (is_some (ns id)) then some name else ns id
promised ns (updates k name) id = if text_eq k id && is_some (ns id) then some name else ns id
promised ns (deletes k) id = if text_eq k id then none else ns id

-- What each operation answers.
abbrev pub succeeds : Names → Op → Bool
succeeds ns (adds name) = not (is_some (ns (zone_slug name)))
succeeds ns (updates k name) = is_some (ns k)
succeeds ns (deletes k) = is_some (ns k)

abbrev is_ok {ℓ κ} : {E : Type ℓ} {A : Type κ} → Result E A → Bool
is_ok (ok a) = true
is_ok (err e) = false

unfoldable pub answers : ZoneRegistry → Op → Bool
answers zones (adds name) = is_ok (add zones name).1
answers zones (updates k name) = is_some (update zones k name).1
answers zones (deletes k) = (delete zones k).1

-- The operations one after the other, with their answers in order.
unfoldable pub run : ZoneRegistry → List Op → ZoneRegistry × List Bool
unfolding step answers
run zones [] = (zones, [])
run zones (op ∷ ops) = let (z, bs) = run (step zones op) ops in (z, answers zones op ∷ bs)

unfoldable pub run_names : Names → List Op → Names × List Bool
run_names ns [] = (ns, [])
run_names ns (op ∷ ops) = let (m, bs) = run_names (promised ns op) ops in (m, succeeds ns op ∷ bs)

has_name : (o : Option Zone) → is_some (name_in o) ≡ is_some o
has_name none = refl
has_name (some z) = refl

add_new :
    (zones : ZoneRegistry) (name : Text)
    → lookup (zone_slug name) zones ≡ none
    → add zones name ≡ (
      insert (zone_slug name) (record { id = zone_slug name; name = name }) zones,
      ok (record { id = zone_slug name; name = name }),
    )
unfolding add
add_new zones name e = rw (add, e) refl

add_taken :
    (zones : ZoneRegistry) (name : Text) {z : Zone}
    → lookup (zone_slug name) zones ≡ some z
    → add zones name ≡ (zones, err (already_exists (zone_slug name)))
unfolding add
add_taken zones name e = rw (add, e) refl

update_lem :
    (zones : ZoneRegistry) (k name : Text) {z : Zone}
    → lookup k zones ≡ some z
    → update zones k name
      ≡ (insert k (record z { name = name }) zones, some (record z { name = name }))
unfolding update
update_lem zones k name e = rw (update, e) refl

update-missing :
    (zones : ZoneRegistry) (k name : Text)
    → lookup k zones ≡ none
    → update zones k name ≡ (zones, none)
unfolding update
update-missing zones k name e = rw (update, e) refl

step-promised :
    (zones : ZoneRegistry) (op : Op) (id : Text)
    → names_of (step zones op) id ≡ promised (names_of zones) op id
unfolding step delete
step-promised zones (adds name) id = elim (Option-cases (lookup (zone_slug name) zones)) [
  | inl e ↦
      rw
        (
          names_of,
          step,
          add_new zones name e,
          lookup-insert (zone_slug name) id (record { id = zone_slug name; name = name }) zones,
        )
        (ground (arith, e, text_eq_iff (zone_slug name) id))
  | inr (z, e) ↦
      rw (names_of, step, add_taken zones name e)
        (ground (arith, e, text_eq_iff (zone_slug name) id))
]
step-promised zones (updates k name) id = elim (Option-cases (lookup k zones)) [
  | inl e ↦ rw (names_of, step, update-missing zones k name e) (ground (arith, e, text_eq_iff k id))
  | inr (z, e) ↦
      rw
        (
          names_of,
          step,
          update_lem zones k name e,
          lookup-insert k id (record z { name = name }) zones,
        )
        (ground (arith, e, text_eq_iff k id))
]
step-promised zones (deletes k) id = rw (lookup-erase k id zones) (ground arith)

answers-succeeds :
    (zones : ZoneRegistry) (op : Op) → answers zones op ≡ succeeds (names_of zones) op
unfolding answers delete
answers-succeeds zones (adds name) = elim (Option-cases (lookup (zone_slug name) zones)) [
  | inl e ↦ rw (add_new zones name e, e) refl
  | inr (z, e) ↦ rw (add_taken zones name e, e) refl
]
answers-succeeds zones (updates k name) = elim (Option-cases (lookup k zones)) [
  | inl e ↦ rw (update-missing zones k name e, e) refl
  | inr (z, e) ↦ rw (update_lem zones k name e, e) refl
]
answers-succeeds zones (deletes k) = sym (has_name (lookup k zones))

-- Names that agree everywhere are run alike.
promised-agree :
    (ns ms : Names) (op : Op)
    → ((id : Text) → ns id ≡ ms id)
    → ((id : Text) → promised ns op id ≡ promised ms op id) × (succeeds ns op ≡ succeeds ms op)
promised-agree ns ms (adds name) h = (λ id. rw (h id) refl, rw (h (zone_slug name)) refl)
promised-agree ns ms (updates k name) h = (λ id. rw (h id) refl, rw (h k) refl)
promised-agree ns ms (deletes k) h = (λ id. rw (h id) refl, rw (h k) refl)

run_agree :
    (zones : ZoneRegistry) (ns : Names) (ops : List Op)
    → ((id : Text) → names_of zones id ≡ ns id)
    → ((id : Text) → names_of (run zones ops).0 id ≡ (run_names ns ops).0 id)
      × ((run zones ops).1 ≡ (run_names ns ops).1)
unfolding run run_names
run_agree zones ns [] h = (h, refl)
run_agree zones ns (op ∷ ops) h =
    let (agree, same) = promised-agree (names_of zones) ns op h in
    let (after, bs) =
      run_agree (step zones op) (promised ns op) ops (λ id. step-promised zones op id ∙ agree id) in
    (after, rw (answers-succeeds zones op, same, bs) refl)

-- The zone registry implements its specification: after any operations in any order each ID has the
-- name that the specification gives it, and every operation succeeded or failed as the
-- specification says.
pub run_refines :
    (zones : ZoneRegistry) (ops : List Op)
    → ((id : Text) → names_of (run zones ops).0 id ≡ (run_names (names_of zones) ops).0 id)
      × ((run zones ops).1 ≡ (run_names (names_of zones) ops).1)
run_refines zones ops = run_agree zones (names_of zones) ops (λ id. refl)
