-- ===== src/Sidecar/Recent.antt =====
-- The latest events: RecentEvents of server/sidecar/handlers/kafka.go. An offset is a natural
-- number; a message that cannot be read ends the list.
use lattice_hub.Base.{
  ℕ, zero, suc, ◌+◌, ◌-◌, ◌≤◌, ◌<◌, ◌≡◌, refl, sym, ap, ◌∙◌, inl, inr, true, ◌&&◌, Option, none,
  some, List, [], ◌∷◌, arith, ltb, leb, ◌==◌, if◌then◌else◌, Text, length, text_eq, Bool-cases,
  drop, get_elem?,
}
use lattice_hub.Startup.Variables.{ℤ, pos, negsuc}

abbrev count_or : ℕ → Option ℤ → ℕ
count_or d none = d
count_or d (some (negsuc n)) = d
count_or d (some (pos n)) = if ltb 0 n && leb n 500 then n else d

module _ (atoi : Text → Option ℤ) where
  -- The number of events asked for.
  unfoldable pub event_count : Text → ℕ
  event_count t = if text_eq t [] then 50 else count_or 50 (atoi t)

  event_count_bounds : (t : Text) → (0 < event_count t) × (event_count t ≤ 500)
  unfolding event_count
  event_count_bounds t = elim (Bool-cases (text_eq t [])) [
    | inl e ↦ rw e (omega arith, omega arith)
    | inr e ↦ rw e (bounds (atoi t))
  ]
    where
      bounds : (o : Option ℤ) → (0 < count_or 50 o) × (count_or 50 o ≤ 500)
      bounds none = (omega arith, omega arith)
      bounds (some (negsuc n)) = (omega arith, omega arith)
      bounds (some (pos n)) = ground arith

-- The first offset to read: the difference of the int64s, or 0 where it is negative.
unfoldable start_offset : ℕ → ℕ → ℕ
start_offset last n = last - n

module _ {ℓ} {A : Type ℓ} (read : ℕ → Option A) where
  abbrev kept : Option A → List A → List A
  kept none rest = []
  kept (some m) rest = m ∷ rest

  -- ReadMessage, as often as asked for.
  unfoldable read_messages : ℕ → ℕ → List A
  read_messages zero offset = []
  read_messages (suc k) offset = kept (read offset) (read_messages k (offset + 1))

  unfoldable pub recent_events : ℕ → ℕ → List A
  unfolding read_messages start_offset
  recent_events last n =
      if last == 0 then [] else read_messages (last - start_offset last n) (start_offset last n)

module _ {ℓ} {A : Type ℓ} where
  abbrev log_end : List A
  log_end = []

  drop-end : (i : ℕ) (log : List A) → i ≡ length log → [] ≡ drop i log
  drop-end zero [] h = refl
  drop-end zero (x ∷ log) h = absurd (omega (arith, h))
  drop-end (suc i) [] h = refl
  drop-end (suc i) (x ∷ log) h = drop-end i log (omega (arith, h))

  drop-step :
      (i : ℕ) (log : List A)
      → i < length log
      → (m : A) × (get_elem? log i ≡ some m) × (drop i log ≡ m ∷ drop (suc i) log)
  drop-step i [] h = absurd (omega (arith, h))
  drop-step zero (x ∷ log) h = (x, refl, refl)
  drop-step (suc i) (x ∷ log) h = drop-step i log (omega (arith, h))

  drop-nil : (k : ℕ) → drop k log_end ≡ log_end
  drop-nil zero = refl
  drop-nil (suc k) = refl

  none_left : (log : List A) (n : ℕ) → (length log == 0) ≡ true → [] ≡ drop (length log - n) log
  none_left [] n e = sym (drop-nil (0 - n))
  none_left (x ∷ log) n e = absurd (ground arith)

  read_messages-log :
      (k i : ℕ) (log : List A) → k + i ≡ length log → read_messages (get_elem? log) k i ≡ drop i log
  unfolding read_messages
  read_messages-log zero i log h = drop-end i log (omega (arith, h))
  read_messages-log (suc k) i log h =
      let (m, e, d) = drop-step i log (omega (arith, h)) in
      rw (e, d)
        (ap (λ (xs : List A). m ∷ xs)
          (read_messages-log k (i + 1) log (omega (arith, h))
            ∙ ap (λ (j : ℕ). drop j log) {y = suc i} (omega arith)))

  -- With every message of the topic readable, the sidecar shows exactly the latest ones, as many as
  -- asked for and in order, and all of them where there are fewer.
  pub recent_events_lem :
      (log : List A) (n : ℕ)
      → recent_events (get_elem? log) (length log) n ≡ drop (length log - n) log
  unfolding recent_events start_offset
  recent_events_lem log n = elim (Bool-cases (length log == 0)) [
    | inl e ↦ rw e (none_left log n e)
    | inr e ↦
        rw e (read_messages-log (length log - (length log - n)) (length log - n) log (omega arith))
  ]
