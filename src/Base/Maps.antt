-- ===== src/Base/Maps.antt =====
-- Go maps as association lists. The list stands for the order in which an iteration visits the
-- entries; Go leaves that order open, so a statement about every list covers every iteration.
use mathlib.Core.Path.{◌≡◌, refl, subst, sym, ap, ◌∙◌}
use mathlib.Core.Logic.{inl, inr}
use mathlib.Core.Bool.{Bool, true, false}
use mathlib.Core.Option.{Option, none, some}
use mathlib.Core.List.{List, [], ◌∷◌, ◌++◌, append-nil, append_assoc}
use native.Mathlib.Omega.{arith}
use Prim.Native.Nat.{suc}
use lattice_hub.Base.Tests.{Bool-cases, if◌then◌else◌}
use lattice_hub.Base.Lists.{length}
use lattice_hub.Base.Texts.{Text, text_eq, text_eq_iff, text_eq_refl}

abbrev pub Map {ℓ} : Type ℓ → Type ℓ
Map V = List (Text × V)

module _ {ℓ} {V : Type ℓ} where
  unfoldable pub lookup : Text → Map V → Option V
  lookup k [] = none
  lookup k ((j, v) ∷ m) = if text_eq j k then some v else lookup k m

  unfoldable pub insert : Text → V → Map V → Map V
  insert k v [] = (k, v) ∷ []
  insert k v ((j, w) ∷ m) = if text_eq j k then (k, v) ∷ m else (j, w) ∷ insert k v m

  unfoldable pub erase : Text → Map V → Map V
  erase k [] = []
  erase k ((j, w) ∷ m) = let rest = erase k m in if text_eq j k then rest else (j, w) ∷ rest

  -- No key stands twice.
  abbrev pub IsMap : Map V → Type ℓ
  IsMap [] = Unit
  IsMap ((k, v) ∷ m) = (lookup k m ≡ none) × IsMap m

  -- Each entry has the property.
  abbrev pub Entries {κ} : (Text → V → Type κ) → Map V → Type κ
  Entries P [] = Unit
  Entries P ((k, v) ∷ m) = P k v × Entries P m

  pub lookup-insert :
      (k j : Text) (v : V) (m : Map V)
      → lookup j (insert k v m) ≡ (if text_eq k j then some v else lookup j m)
  unfolding lookup insert
  lookup-insert k j v [] = refl
  lookup-insert k j v ((i, w) ∷ m) =
      ground (arith, text_eq_iff k j, text_eq_iff i k, text_eq_iff i j, lookup-insert k j v m)

  pub lookup-erase :
      (k j : Text) (m : Map V) → lookup j (erase k m) ≡ (if text_eq k j then none else lookup j m)
  unfolding lookup erase
  lookup-erase k j [] = ground arith
  lookup-erase k j ((i, w) ∷ m) =
      ground (arith, text_eq_iff k j, text_eq_iff i k, text_eq_iff i j, lookup-erase k j m)

  pub lookup-nil : (k : Text) → lookup k [] ≡ none
  unfolding lookup
  lookup-nil k = refl

  pub lookup-insert_self : (k : Text) (v : V) (m : Map V) → lookup k (insert k v m) ≡ some v
  lookup-insert_self k v m = simp (lookup-insert, text_eq_refl)

  pub insert-IsMap : (k : Text) (v : V) (m : Map V) → IsMap m → IsMap (insert k v m)
  unfolding lookup insert
  insert-IsMap k v [] h = (refl, tt)
  insert-IsMap k v ((i, w) ∷ m) h =
      ground
        (arith, text_eq_iff i k, text_eq_iff k i, lookup-insert k i v m, insert-IsMap k v m h.1)

  pub erase-IsMap : (k : Text) (m : Map V) → IsMap m → IsMap (erase k m)
  unfolding lookup erase
  erase-IsMap k [] h = tt
  erase-IsMap k ((i, w) ∷ m) h = ground (arith, lookup-erase k i m, erase-IsMap k m h.1)

  pub Entries-insert {κ} :
      (P : Text → V → Type κ) (k : Text) (v : V) (m : Map V)
      → P k v
      → Entries P m
      → Entries P (insert k v m)
  unfolding insert
  Entries-insert P k v [] p h = (p, tt)
  Entries-insert P k v ((i, w) ∷ m) p h = elim (Bool-cases (text_eq i k)) [
    | inl e ↦ rw e (p, h.1)
    | inr e ↦ rw e (h.0, Entries-insert P k v m p h.1)
  ]

  pub Entries-erase {κ} :
      (P : Text → V → Type κ) (k : Text) (m : Map V) → Entries P m → Entries P (erase k m)
  unfolding erase
  Entries-erase P k [] h = tt
  Entries-erase P k ((i, w) ∷ m) h = elim (Bool-cases (text_eq i k)) [
    | inl e ↦ rw e (Entries-erase P k m h.1)
    | inr e ↦ rw e (h.0, Entries-erase P k m h.1)
  ]

  pub Entries-lookup {κ} :
      (P : Text → V → Type κ) (k : Text) (m : Map V) {v : V}
      → Entries P m
      → lookup k m ≡ some v
      → P k v
  unfolding lookup
  Entries-lookup P k [] h e = absurd (ground arith)
  Entries-lookup P k ((i, w) ∷ m) {v} h e = elim (Bool-cases (text_eq i k)) [
    | inl q ↦
        subst (λ (x : V). P k x) (ground arith)
          (subst (λ (x : Text). P x w) ((text_eq_iff i k).0 q) h.0)
    | inr q ↦ Entries-lookup P k m h.1 (rw q at e)
  ]

  pub Entries-weaken {κ} :
      (P Q : Text → V → Type κ) (m : Map V)
      → ((k : Text) (v : V) → P k v → Q k v)
      → Entries P m
      → Entries Q m
  Entries-weaken P Q [] f h = tt
  Entries-weaken P Q ((k, v) ∷ m) f h = (f k v h.0, Entries-weaken P Q m f h.1)

  -- The first entry of an iteration whose value passes the test.
  unfoldable pub find : (V → Bool) → Map V → Option (Text × V)
  find p [] = none
  find p ((k, v) ∷ m) = if p v then some (k, v) else find p m

  abbrev pub values : Map V → List V
  values [] = []
  values ((k, v) ∷ m) = v ∷ values m

  pub find_sound :
      (p : V → Bool) (m : Map V) {k : Text} {v : V}
      → IsMap m
      → find p m ≡ some (k, v)
      → (lookup k m ≡ some v) × (p v ≡ true)
  unfolding find lookup
  find_sound p [] h e = absurd (ground arith)
  find_sound p ((i, w) ∷ m) {k} {v} h e = elim (Bool-cases (p w)) [
    | inl q ↦ ground (arith, text_eq_refl k)
    | inr q ↦ ground (arith, text_eq_iff i k, find_sound p m {k = k} {v = v} h.1)
  ]

  pub find_complete :
      (p : V → Bool) (m : Map V) (k : Text) (v : V)
      → find p m ≡ none
      → lookup k m ≡ some v
      → p v ≡ false
  unfolding find lookup
  find_complete p [] k v f e = absurd (ground arith)
  find_complete p ((i, w) ∷ m) k v f e = ground (arith, find_complete p m k v)

  length-insert_new :
      (k : Text) (v : V) (m : Map V) → lookup k m ≡ none → length (insert k v m) ≡ suc (length m)
  unfolding lookup insert
  length-insert_new k v [] e = refl
  length-insert_new k v ((i, w) ∷ m) e = ground (arith, length-insert_new k v m)

  length-insert_old :
      (k : Text) (v w : V) (m : Map V) → lookup k m ≡ some w → length (insert k v m) ≡ length m
  unfolding lookup insert
  length-insert_old k v w [] e = absurd (ground arith)
  length-insert_old k v w ((i, x) ∷ m) e = ground (arith, length-insert_old k v w m)

  -- Inserting the entries of a map one by one, in order.
  unfoldable pub insert_all : Map V → Map V → Map V
  insert_all acc [] = acc
  insert_all acc ((k, v) ∷ m) = insert_all (insert k v acc) m

  insert-absent :
      (k : Text) (v : V) (m : Map V) → lookup k m ≡ none → insert k v m ≡ m ++ (k, v) ∷ []
  unfolding lookup insert
  insert-absent k v [] e = refl
  insert-absent k v ((i, w) ∷ m) e = ground (arith, insert-absent k v m)

  -- No key of the second map is a key of the first.
  abbrev IsApart : Map V → Map V → Type ℓ
  IsApart acc m = Entries (λ k _. lookup k acc ≡ none) m

  IsApart-insert :
      (k : Text) (v : V) (acc m : Map V)
      → lookup k m ≡ none
      → IsApart acc m
      → IsApart (insert k v acc) m
  unfolding lookup
  IsApart-insert k v acc [] e h = tt
  IsApart-insert k v acc ((j, w) ∷ m) e h =
      ground
        (arith, lookup-insert k j v acc, text_eq_iff k j, text_eq_iff j k, IsApart-insert k v acc m)

  insert_all-append : (acc m : Map V) → IsMap m → IsApart acc m → insert_all acc m ≡ acc ++ m
  unfolding insert_all
  insert_all-append acc [] h a = sym (append-nil acc)
  insert_all-append acc ((k, v) ∷ m) h a =
      insert_all-append (insert k v acc) m h.1 (IsApart-insert k v acc m h.0 a.1)
      ∙ ap (λ (xs : Map V). xs ++ m) (insert-absent k v acc a.0)
      ∙ append_assoc acc ((k, v) ∷ []) m

  IsApart-nil : (m : Map V) → IsApart [] m
  unfolding lookup
  IsApart-nil [] = tt
  IsApart-nil ((k, v) ∷ m) = (refl, IsApart-nil m)

  -- Read back into an empty map, they are the map again.
  pub insert_all-nil : (m : Map V) → IsMap m → insert_all [] m ≡ m
  insert_all-nil m h = insert_all-append [] m h (IsApart-nil m)

module _ {ℓ κ} {V : Type ℓ} {W : Type κ} (f : V → W) where
  unfoldable pub map_values : Map V → Map W
  map_values [] = []
  map_values ((k, v) ∷ m) = (k, f v) ∷ map_values m

  lookup-map_values-none :
      (k : Text) (m : Map V) → lookup k m ≡ none → lookup k (map_values m) ≡ none
  unfolding lookup map_values
  lookup-map_values-none k [] e = refl
  lookup-map_values-none k ((j, v) ∷ m) e = ground (arith, lookup-map_values-none k m)

  pub map_values-IsMap : (m : Map V) → IsMap m → IsMap (map_values m)
  unfolding map_values
  map_values-IsMap [] h = tt
  map_values-IsMap ((k, v) ∷ m) h = (lookup-map_values-none k m h.0, map_values-IsMap m h.1)

module _ {ℓ} {V : Type ℓ} where
  -- Writing back what is there changes nothing.
  pub insert-lookup : (k : Text) (v : V) (m : Map V) → lookup k m ≡ some v → insert k v m ≡ m
  unfolding lookup insert
  insert-lookup k v [] e = absurd (ground arith)
  insert-lookup k v ((i, w) ∷ m) e = ground (arith, text_eq_iff i k, insert-lookup k v m)
