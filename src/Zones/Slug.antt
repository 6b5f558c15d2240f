-- ===== src/Zones/Slug.antt =====
-- The URL form of a zone's name.
use lattice_hub.Base.{ℕ, ◌<◌, ◌≡◌, refl, ◌≢◌, ◌⊎◌, [], ◌∷◌, arith, Text, All}
use lattice_hub.Zones.{zone_slug, lower, dashed}

-- No blank and no capital letter.
abbrev IsUrlSafe : ℕ → Type 0
IsUrlSafe c = (c ≢ 32) × ((c < 65) ⊎ (90 < c))

zone_slug_chars : (c : ℕ) → IsUrlSafe (dashed (lower c))
unfolding dashed lower
zone_slug_chars c = ground arith

zone_slug_fixed : (c : ℕ) → dashed (lower (dashed (lower c))) ≡ dashed (lower c)
unfolding dashed lower
zone_slug_fixed c = ground arith

-- An ID has neither blanks nor capital letters, and is its own ID.
zone_slug_safe :
    (name : Text) → All IsUrlSafe (zone_slug name) × (zone_slug (zone_slug name) ≡ zone_slug name)
unfolding zone_slug
zone_slug_safe [] = (tt, refl)
zone_slug_safe (c ∷ name) =
    let (safe, fixed) = zone_slug_safe name in
    ((zone_slug_chars c, safe), cc (zone_slug_fixed c, fixed))
