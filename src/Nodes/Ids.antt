-- ===== src/Nodes/Ids.antt =====
-- Which ID NextFreeNodeID hands out.
use lattice_hub.Base.{
  ℕ, zero, suc, ◌+◌, ◌≤◌, ◌<◌, ◌≡◌, refl, ◌≢◌, inl, inr, true, false, some, [], ◌∷◌, arith, ◌==◌,
  if◌then◌else◌, Text, length, Bool-cases, dec_lt, ◌⊎◌,
}
use lattice_hub.Base.Maps.{lookup}
use lattice_hub.Nodes.{NodeInfo, Registry, is_used, free_from, next_free_node_id}

free_from-le :
    (r : Registry) (rounds id j : ℕ)
    → id ≤ j
    → j < id + rounds
    → is_used r j ≡ false
    → (id ≤ free_from r rounds id)
      × (free_from r rounds id ≤ j)
      × (is_used r (free_from r rounds id) ≡ false)
unfolding free_from
free_from-le r zero id j lo hi free = absurd (omega arith)
free_from-le r (suc rounds) id j lo hi free = elim (Bool-cases (is_used r id)) [
  | inl u ↦ let later : id ≢ j = (λ e. cc) in ground (arith, free_from-le r rounds (id + 1) j)
  | inr u ↦ rw u (omega arith, lo, u)
]

-- As long as some ID from 1 to 255 is free, the ID handed out is not 0, is used by no entry, and
-- is at most that free one: it is the lowest.
pub next_free_node_id-lowest :
    (r : Registry) (j : ℕ)
    → 0 < j
    → j ≤ 255
    → is_used r j ≡ false
    → (0 < next_free_node_id r)
      × (next_free_node_id r ≤ j)
      × (is_used r (next_free_node_id r) ≡ false)
unfolding next_free_node_id
next_free_node_id-lowest r j lo hi free = free_from-le r 255 1 j lo (omega arith) free

-- An entry's ID counts as used.
pub is_used-lookup :
    (k : Text) (r : Registry) (n : NodeInfo)
    → lookup k r ≡ some n
    → 0 < n.node_id
    → is_used r n.node_id ≡ true
unfolding is_used lookup
is_used-lookup k [] n e pos = absurd (ground arith)
is_used-lookup k ((i, m) ∷ r) n e pos = ground (arith, is_used-lookup k r n)

-- How many of the IDs from `id` on are used, and how many of them are `n`.
used_count : Registry → ℕ → ℕ → ℕ
used_count r zero id = 0
used_count r (suc rounds) id = (if is_used r id then 1 else 0) + used_count r rounds (id + 1)

hits : ℕ → ℕ → ℕ → ℕ
hits n zero id = 0
hits n (suc rounds) id = (if n == id then 1 else 0) + hits n rounds (id + 1)

hits_past : (n rounds id : ℕ) → n < id → hits n rounds id ≡ 0
unfolding hits
hits_past n zero id h = refl
hits_past n (suc rounds) id h = ground (arith, hits_past n rounds (id + 1))

hits-le : (n rounds id : ℕ) → hits n rounds id ≤ 1
unfolding hits
hits-le n zero id = omega arith
hits-le n (suc rounds) id = ground (arith, hits_past n rounds (id + 1), hits-le n rounds (id + 1))

used_count-cons :
    (k : Text) (n : NodeInfo) (r : Registry) (rounds id : ℕ)
    → used_count ((k, n) ∷ r) rounds id ≤ hits n.node_id rounds id + used_count r rounds id
unfolding used_count hits is_used
used_count-cons k n r zero id = omega arith
used_count-cons k n r (suc rounds) id = ground (arith, used_count-cons k n r rounds (id + 1))

used_count-nil : (rounds id : ℕ) → used_count [] rounds id ≡ 0
unfolding used_count is_used
used_count-nil zero id = refl
used_count-nil (suc rounds) id = omega (arith, used_count-nil rounds (id + 1))

used_count-le : (r : Registry) (rounds id : ℕ) → used_count r rounds id ≤ length r
used_count-le [] rounds id = omega (arith, used_count-nil rounds id)
used_count-le ((k, n) ∷ r) rounds id =
    omega (
      arith,
      used_count-cons k n r rounds id,
      hits-le n.node_id rounds id,
      used_count-le r rounds id,
    )

free_from-zero :
    (r : Registry) (rounds id : ℕ)
    → 0 < id
    → free_from r rounds id ≡ 0
    → used_count r rounds id ≡ rounds
unfolding free_from used_count
free_from-zero r zero id pos e = refl
free_from-zero r (suc rounds) id pos e = ground (arith, free_from-zero r rounds (id + 1))

-- A registry of fewer than 255 entries always has an ID to hand out.
next_free_node_id-pos : (r : Registry) → length r < 255 → 0 < next_free_node_id r
unfolding next_free_node_id
next_free_node_id-pos r h = elim (dec_lt 0 (free_from r 255 1)) [
  | yes p ↦ p
  | no p ↦
      absurd
        (omega (arith, free_from-zero r 255 1 (omega arith) (omega arith), used_count-le r 255 1))
]

free_from-unused :
    (r : Registry) (rounds id : ℕ)
    → (free_from r rounds id ≡ 0) ⊎ (is_used r (free_from r rounds id) ≡ false)
unfolding free_from
free_from-unused r zero id = inl refl
free_from-unused r (suc rounds) id = elim (Bool-cases (is_used r id)) [
  | inl u ↦ rw u (free_from-unused r rounds (id + 1))
  | inr u ↦ rw u (inr u)
]

-- What is handed out is 0 or an ID that no entry has.
pub next_free_node_id-unused :
    (r : Registry) → (next_free_node_id r ≡ 0) ⊎ (is_used r (next_free_node_id r) ≡ false)
unfolding next_free_node_id
next_free_node_id-unused r = free_from-unused r 255 1

free_from-byte :
    (r : Registry) (rounds id : ℕ) → 0 < id → id + rounds ≤ 256 → free_from r rounds id < 256
unfolding free_from
free_from-byte r zero id pos h = omega arith
free_from-byte r (suc rounds) id pos h = ground (arith, free_from-byte r rounds (id + 1))

pub next_free_node_id-byte : (r : Registry) → next_free_node_id r < 256
unfolding next_free_node_id
next_free_node_id-byte r = free_from-byte r 255 1 (omega arith) (omega arith)
