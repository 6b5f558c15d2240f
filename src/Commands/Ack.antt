-- ===== src/Commands/Ack.antt =====
-- What an acknowledgement frame does to the store.
use lattice_hub.Base.{
  ℕ, ◌≡◌, refl, inl, inr, true, false, Option, none, some, List, [], ◌∷◌, arith, if◌then◌else◌,
  Text, text_eq, text_eq_iff, Bool-cases, text_eq_refl,
}
use lattice_hub.Base.Maps.{lookup, IsMap}
use lattice_hub.Commands.{PendingCommand, CommandStore, ack_by_token, awaits, acknowledged}

module _ (uuid_parse : Text → Option (List ℕ)) where
  -- What is acknowledged was a pending command whose ID ends in the token; it is stamped with the
  -- time, it is reported by its ID, and every other command is left as it was.
  ack_by_token-some :
      (now t0 t1 : ℕ) (cs : CommandStore) (id j : Text)
      → IsMap cs
      → (ack_by_token uuid_parse now t0 t1 cs).1 ≡ some id
      → (cmd : PendingCommand) × (lookup id cs ≡ some cmd)
        × (awaits uuid_parse t0 t1 id cmd ≡ true)
        × (lookup j (ack_by_token uuid_parse now t0 t1 cs).0
            ≡ (if text_eq id j then some (acknowledged now cmd) else lookup j cs))
  unfolding ack_by_token lookup
  ack_by_token-some now t0 t1 [] id j m h = absurd (ground arith)
  ack_by_token-some now t0 t1 ((i, c) ∷ cs) id j m h =
      elim (Bool-cases (awaits uuid_parse t0 t1 i c)) [
        | inl e ↦ (c, ground (arith, text_eq_refl i), ground arith, ground arith)
        | inr e ↦
            let (cmd, l, a, after) = ack_by_token-some now t0 t1 cs id j m.1 (ground arith) in
            (
              cmd,
              ground (arith, text_eq_iff i id),
              a,
              ground (arith, text_eq_iff i id, text_eq_iff i j, text_eq_iff id j),
            )
      ]

  unchanged :
      (now t0 t1 : ℕ) (cs : CommandStore)
      → (ack_by_token uuid_parse now t0 t1 cs).1 ≡ none
      → (ack_by_token uuid_parse now t0 t1 cs).0 ≡ cs
  unfolding ack_by_token
  unchanged now t0 t1 [] h = refl
  unchanged now t0 t1 ((i, c) ∷ cs) h = ground (arith, unchanged now t0 t1 cs)

  none-awaits :
      (now t0 t1 : ℕ) (cs : CommandStore) (id : Text) (cmd : PendingCommand)
      → (ack_by_token uuid_parse now t0 t1 cs).1 ≡ none
      → lookup id cs ≡ some cmd
      → awaits uuid_parse t0 t1 id cmd ≡ false
  unfolding ack_by_token lookup
  none-awaits now t0 t1 [] id cmd h l = absurd (ground arith)
  none-awaits now t0 t1 ((i, c) ∷ cs) id cmd h l = elim (Bool-cases (awaits uuid_parse t0 t1 i c)) [
    | inl e ↦ absurd (ground arith)
    | inr e ↦ elim (Bool-cases (text_eq i id)) [
      | inl q ↦ let here : c ≡ cmd = ground arith in rw (← here, ← (text_eq_iff i id).0 q) e
      | inr q ↦ none-awaits now t0 t1 cs id cmd (ground arith) (ground arith)
    ]
  ]

  -- Where nothing is acknowledged, the store is unchanged and no command awaits the token.
  ack_by_token-none :
      (now t0 t1 : ℕ) (cs : CommandStore) (id : Text) (cmd : PendingCommand)
      → (ack_by_token uuid_parse now t0 t1 cs).1 ≡ none
      → lookup id cs ≡ some cmd
      → ((ack_by_token uuid_parse now t0 t1 cs).0 ≡ cs) × (awaits uuid_parse t0 t1 id cmd ≡ false)
  ack_by_token-none now t0 t1 cs id cmd h l =
      (unchanged now t0 t1 cs h, none-awaits now t0 t1 cs id cmd h l)
