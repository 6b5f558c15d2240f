-- ===== src/Server/Liveness/Masters.antt =====
-- The masters' links: which of them counts as online.
use lattice_hub.Server.{Env, Server, secondary, primary}
use lattice_hub.Server.Liveness.{
  record_frame, is_primary_online, is_secondary_online, is_master_online, frame_is_fresh,
  serial_status,
}
use lattice_hub.Base.{◌<◌, ◌≡◌, refl, true, ◌||◌, arith}

-- A frame refreshes the link it came in on and no other: afterwards that link is online, and the
-- other one, if it is the primary's, is as it was.
record_frame-online :
    (env : Env) (s : Server)
    → 0 < env.now
    → 0 < s.health_timeout
    → (is_primary_online env (record_frame env s primary) ≡ true)
      × (is_primary_online env (record_frame env s secondary) ≡ is_primary_online env s)
      × (is_secondary_online env (record_frame env s primary) ≡ is_secondary_online env s)
      × (is_master_online env (record_frame env s secondary)
          ≡ (is_primary_online env s || s.secondary_port || s.secondary_open))
unfolding record_frame is_primary_online is_secondary_online is_master_online frame_is_fresh
    serial_status
record_frame-online env s now timeout = (ground arith, refl, refl, ground arith)
