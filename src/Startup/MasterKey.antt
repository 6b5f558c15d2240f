-- ===== src/Startup/MasterKey.antt =====
-- The master's key pair: server/orchestrator/mesh/masterkey.go. curve25519.ScalarBaseMult and
-- rand.Read are outside the repository and are parameters.
use lattice_hub.Base.{
  text_eq_refl, ℕ, ◌+◌, ◌*◌, ◌/◌, ◌%◌, ◌≡◌, refl, inl, inr, Option, none, some, List, if◌then◌else◌,
  text_eq, text_eq_iff, Bool-cases, Result, ok, err, set, get_or,
}

pub record MasterKeypair : Type 0 where
  pub private_key : List ℕ
  pub public_key : List ℕ

-- What os.ReadFile and json.Unmarshal make of the file.
pub data KeyFile : Type 0 where
  absent no_access malformed : KeyFile
  stored : MasterKeypair → KeyFile

pub data KeyError : Type 0 where
  corrupted mismatched read_refused no_random write_refused : KeyError

-- The file after the call, and the key pair or the error.
abbrev KeyOutcome : Type 0
KeyOutcome = KeyFile × Result KeyError MasterKeypair

-- `priv[0] &= 248; priv[31] &= 127; priv[31] |= 64`.
unfoldable clamp : List ℕ → List ℕ
clamp p = set (set p 0 (get_or p 0 0 / 8 * 8)) 31 (get_or p 31 0 % 64 + 64)

module _ (base_mult : List ℕ → List ℕ) where
  abbrev keypair : List ℕ → MasterKeypair
  keypair p = record { private_key = clamp p; public_key = base_mult (clamp p) }

  abbrev checked : MasterKeypair → KeyOutcome
  checked kp =
      if text_eq (base_mult kp.private_key) kp.public_key
      then (stored kp, ok kp)
      else (stored kp, err mismatched)

  -- A write that fails leaves the file that it is told to leave: none, or one cut short.
  abbrev generated : Option KeyFile → Option (List ℕ) → KeyOutcome
  generated write none = (absent, err no_random)
  generated none (some p) = (stored (keypair p), ok (keypair p))
  generated (some left) (some p) = (left, err write_refused)

  -- What a failed os.WriteFile leaves is none where the write succeeds; the random bytes are none
  -- where the system has none to give.
  unfoldable pub load_or_generate : Option KeyFile → Option (List ℕ) → KeyFile → KeyOutcome
  unfolding clamp
  load_or_generate write random (stored kp) = checked kp
  load_or_generate write random malformed = (malformed, err corrupted)
  load_or_generate write random no_access = (no_access, err read_refused)
  load_or_generate write random absent = generated write random

  -- What a call did with a file f, and what every later call makes of the file that it left.
  pub data Outcome (later write : Option KeyFile) (other : Option (List ℕ)) (f : KeyFile)
      : KeyOutcome → Type 0 where
    loads :
        (g : KeyFile) (kp : MasterKeypair)
        → base_mult kp.private_key ≡ kp.public_key
        → load_or_generate later other g ≡ (g, ok kp)
        → Outcome later write other f (g, ok kp)
    fails : (e : KeyError) → Outcome later write other f (f, err e)
    leaves :
        (g : KeyFile)
        → f ≡ absent
        → write ≡ some g
        → Outcome later write other f (g, err write_refused)

  Outcome-checked :
      (later write : Option KeyFile) (other : Option (List ℕ)) (kp : MasterKeypair)
      → Outcome later write other (stored kp) (checked kp)
  unfolding load_or_generate
  Outcome-checked later write other kp =
      elim (Bool-cases (text_eq (base_mult kp.private_key) kp.public_key)) [
        | inl a ↦
            rw (checked, a)
              (loads (stored kp) kp ((text_eq_iff (base_mult kp.private_key) kp.public_key).0 a)
                (rw (checked, a) refl))
        | inr a ↦ rw (checked, a) (fails mismatched)
      ]

  Outcome-generated :
      (later write : Option KeyFile) (random other : Option (List ℕ))
      → Outcome later write other absent (generated write random)
  unfolding load_or_generate
  Outcome-generated later write none other = fails no_random
  Outcome-generated later none (some p) other =
      loads (stored (keypair p)) (keypair p) refl
        (rw (checked, text_eq_refl (base_mult (clamp p))) refl)
  Outcome-generated later (some left) (some p) other = leaves left refl refl

  -- Whatever the file held, a call that succeeds leaves a file from which every later call reads
  -- the same key pair, whose keys belong together. A call that fails leaves the file as it was,
  -- unless there was none and the write of the new one failed: then it leaves what that write left.
  -- A file cut short makes every later call fail and stays.
  pub load_or_generate-again :
      (write later : Option KeyFile) (random other : Option (List ℕ)) (f : KeyFile)
      → Outcome later write other f (load_or_generate write random f)
        × (load_or_generate later other malformed ≡ (malformed, err corrupted))
  unfolding load_or_generate
  load_or_generate-again write later random other (stored kp) =
      (Outcome-checked later write other kp, refl)
  load_or_generate-again write later random other malformed = (fails corrupted, refl)
  load_or_generate-again write later random other no_access = (fails read_refused, refl)
  load_or_generate-again write later random other absent =
      (Outcome-generated later write random other, refl)
