-- ===== src/Server/Send/WellTyped/Switched.antt =====
-- Starting and stopping send no frame.
use lattice_hub.Base.{
  ◌≡◌, refl, sym, ◌∙◌, Bool, true, false, List, [], ◌∷◌, ◌++◌, All, subst, not, ◌&&◌, not, ◌&&◌,
}
use lattice_hub.Server.{
  Env, Server, Effect, primary, secondary, sends, logs, saves_auth, saves_nodes, saves_zones,
  flushes, sets_connected, closes,
}
use lattice_hub.Server.Enrollment.Frames.{frames}
use lattice_hub.Server.Lifecycle.{
  start, stop, interleave, final_saves, closing, effect_if, start_loops, open_secondary,
  open_primary,
}
use lattice_hub.Server.Send.WellTyped.{IsFrame, Framed, either-Framed}
use lattice_hub.Server.Send.WellTyped.Received.{either-answer}
use lattice_hub.Server.Liveness.{record_frame}

abbrev IsSilent : Effect → Type 0
IsSilent (sends link m) = ⊥
IsSilent e = Unit

silent_cons : (e : Effect) (es : List Effect) → IsSilent e → frames (e ∷ es) ≡ frames es
silent_cons (sends link m) es h = absurd h
silent_cons (logs r b) es h = refl
silent_cons saves_auth es h = refl
silent_cons saves_nodes es h = refl
silent_cons saves_zones es h = refl
silent_cons (flushes link) es h = refl
silent_cons (sets_connected b) es h = refl
silent_cons (closes link) es h = refl

frames-silent : (xs es : List Effect) → All IsSilent xs → frames (xs ++ es) ≡ frames es
frames-silent [] es h = refl
frames-silent (x ∷ xs) es h = silent_cons x (xs ++ es) h.0 ∙ frames-silent xs es h.1

append-Silent : (xs ys : List Effect) → All IsSilent xs → All IsSilent ys → All IsSilent (xs ++ ys)
append-Silent [] ys h k = k
append-Silent (x ∷ xs) ys h k = (h.0, append-Silent xs ys h.1 k)

interleave-Silent :
    (turns : List Bool) (xs ys : List Effect)
    → All IsSilent xs
    → All IsSilent ys
    → All IsSilent (interleave turns xs ys)
unfolding interleave
interleave-Silent [] xs ys h k = append-Silent xs ys h k
interleave-Silent (true ∷ turns) [] ys h k = k
interleave-Silent (true ∷ turns) (x ∷ xs) ys h k = (h.0, interleave-Silent turns xs ys h.1 k)
interleave-Silent (false ∷ turns) xs [] h k = h
interleave-Silent (false ∷ turns) xs (y ∷ ys) h k = (k.0, interleave-Silent turns xs ys h k.1)

effect_if-Silent : (b : Bool) (e : Effect) → IsSilent e → All IsSilent (effect_if b e)
effect_if-Silent true e h = (h, tt)
effect_if-Silent false e h = tt

final_saves-Silent : (env : Env) (s : Server) → All IsSilent (final_saves env s)
final_saves-Silent env s =
    interleave-Silent env.save_turns _ _ (effect_if-Silent s.has_auth_path saves_auth tt)
      (effect_if-Silent s.has_node_path saves_nodes tt)

closing-Silent : (s : Server) → All IsSilent (closing s)
closing-Silent s = append-Silent _ _ (effect_if-Silent s.secondary_open (closes secondary) tt) (
    append-Silent _ _ (effect_if-Silent s.primary_open (sets_connected false) tt) (
      append-Silent _ _ (effect_if-Silent s.primary_open (closes primary) tt)
        (effect_if-Silent s.has_zone_path saves_zones tt)))

pub stop-Framed : (env : Env) (s : Server) → Framed s → Framed (stop env s).0
unfolding stop
stop-Framed env s v = either-answer (not s.running) _ _ v (
    either-answer s.persist_closed _ _ (record { all_frames = v.all_frames })
      (record {
        all_frames =
            subst (All IsFrame)
              (sym (
                frames-silent (interleave env.stop_turns (closing s) (final_saves env s)) s.effects
                  (interleave-Silent env.stop_turns (closing s) (final_saves env s)
                    (closing-Silent s) (final_saves-Silent env s))))
              v.all_frames;
      }))

start_loops-Framed : (env : Env) (s : Server) → Framed s → Framed (start_loops env s)
start_loops-Framed env s v =
    either-Framed s.persist_closed _ _
      (record {
        all_frames =
            subst (All IsFrame)
              (sym (frames-silent (final_saves env s) s.effects (final_saves-Silent env s)))
              v.all_frames;
      })
      v

open_secondary-Framed : (env : Env) (s : Server) → Framed s → Framed (open_secondary env s)
unfolding record_frame
open_secondary-Framed env s v =
    either-Framed (s.secondary_port && env.open_ok secondary) _ _
      (record { all_frames = v.all_frames }) v

pub start-Framed : (env : Env) (s : Server) → Framed s → Framed (start env s).0
unfolding start record_frame
start-Framed env s v = either-answer s.running _ _ v (
    either-answer (not (env.open_ok primary)) _ _ v (
      start_loops-Framed env (open_secondary env (open_primary env s))
        (open_secondary-Framed env (open_primary env s) (record { all_frames = v.all_frames }))))
