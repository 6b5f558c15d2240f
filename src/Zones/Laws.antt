-- ===== src/Zones/Laws.antt =====
-- What the zone registry keeps.
use lattice_hub.Base.{
  ◌≡◌, refl, ap, ◌∙◌, ◌⊎◌, inl, inr, true, none, some, [], ◌∷◌, arith, if◌then◌else◌, Text, text_eq,
  Bool-cases, Option-cases, is_some, ok, err,
}
use lattice_hub.Base.Maps.{
  lookup, insert, Entries-lookup, insert-IsMap, lookup-insert, insert_all-nil, IsMap, erase-IsMap,
  Entries, insert_all, Entries-insert, Entries-erase, values,
}
use lattice_hub.Zones.{
  Zone, ZoneRegistry, add, update, delete, zone_slug, persist, load, already_exists, load_entries,
}

-- Each zone stands under its ID.
pub record Inv (zones : ZoneRegistry) : Type 0 where
  pub is_map : IsMap zones
  pub keyed : Entries (λ k z. z.id ≡ k) zones

pub data Op : Type 0 where
  adds : Text → Op
  updates : Text → Text → Op
  deletes : Text → Op

unfoldable pub step : ZoneRegistry → Op → ZoneRegistry
step zones (adds name) = (add zones name).0
step zones (updates id name) = (update zones id name).0
step zones (deletes id) = (delete zones id).0

insert-Inv :
    (k : Text) (z : Zone) (zones : ZoneRegistry) → z.id ≡ k → Inv zones → Inv (insert k z zones)
insert-Inv k z zones e v = record {
  is_map = insert-IsMap k z zones v.is_map;
  keyed = Entries-insert (λ j (w : Zone). w.id ≡ j) k z zones e v.keyed;
}

add-Inv : (zones : ZoneRegistry) (name : Text) → Inv zones → Inv (add zones name).0
unfolding add
add-Inv zones name v = elim (Bool-cases (is_some (lookup (zone_slug name) zones))) [
  | inl e ↦ rw e v
  | inr e ↦ rw e (insert-Inv (zone_slug name) _ zones refl v)
]

update-Inv : (zones : ZoneRegistry) (id name : Text) → Inv zones → Inv (update zones id name).0
unfolding update
update-Inv zones id name v = elim (Option-cases (lookup id zones)) [
  | inl e ↦ rw (e, update) v
  | inr (z, e) ↦
      rw (e, update)
        (insert-Inv id _ zones (Entries-lookup (λ j (w : Zone). w.id ≡ j) id zones v.keyed e) v)
]

delete-Inv : (zones : ZoneRegistry) (id : Text) → Inv zones → Inv (delete zones id).0
unfolding delete
delete-Inv zones id v = record {
  is_map = erase-IsMap id zones v.is_map;
  keyed = Entries-erase (λ j (w : Zone). w.id ≡ j) id zones v.keyed;
}

-- Creating, renaming and deleting keep every zone under its own ID.
step-Inv : (zones : ZoneRegistry) (op : Op) → Inv zones → Inv (step zones op)
unfolding step
step-Inv zones (adds name) v = add-Inv zones name v
step-Inv zones (updates id name) v = update-Inv zones id name v
step-Inv zones (deletes id) v = delete-Inv zones id v

-- A zone is created exactly when its ID is free, with every other zone left alone; where the ID is
-- taken, also by another name, the registry is unchanged.
add_total :
    (zones : ZoneRegistry) (name j : Text)
    → ((lookup (zone_slug name) zones ≡ none)
        × ((add zones name).1 ≡ ok (record { id = zone_slug name; name = name }))
        × (lookup j (add zones name).0 ≡ (
            if text_eq (zone_slug name) j
            then some (record { id = zone_slug name; name = name })
            else lookup j zones)))
      ⊎ ((is_some (lookup (zone_slug name) zones) ≡ true)
          × (add zones name ≡ (zones, err (already_exists (zone_slug name)))))
unfolding add
add_total zones name j = elim (Option-cases (lookup (zone_slug name) zones)) [
  | inl e ↦ inl (
    e,
    ground arith,
    ground (
      arith,
      lookup-insert (zone_slug name) j (record { id = zone_slug name; name = name }) zones,
    ),
  )
  | inr (z, e) ↦ inr (ground arith, ground arith)
]

-- Renaming changes one zone's name and never an ID: the same IDs exist before and after, and a
-- renamed zone keeps the ID of its first name.
update_total :
    (zones : ZoneRegistry) (id name j : Text) (z : Zone)
    → lookup id zones ≡ some z
    → ((update zones id name).1 ≡ some (record { id = z.id; name = name }))
      × (lookup j (update zones id name).0
          ≡ (if text_eq id j then some (record { id = z.id; name = name }) else lookup j zones))
unfolding update
update_total zones id name j z e =
    (rw (e, update) refl, rw (e, update) (lookup-insert id j (record z { name = name }) zones))

load_entries-values :
    (acc zones : ZoneRegistry)
    → Entries (λ k z. z.id ≡ k) zones
    → load_entries acc (values zones) ≡ insert_all acc zones
unfolding load_entries insert_all
load_entries-values acc [] h = refl
load_entries-values acc ((k, z) ∷ zones) h =
    ap (λ (x : Text). load_entries (insert x z acc) (values zones)) h.0
    ∙ load_entries-values (insert k z acc) zones h.1

-- Saved and loaded into a new registry, the zones are the same.
pub load-persist_zones : (zones : ZoneRegistry) → Inv zones → load [] (persist zones) ≡ ok zones
unfolding load persist
load-persist_zones zones v =
    ap ok (load_entries-values [] zones v.keyed ∙ insert_all-nil zones v.is_map)
