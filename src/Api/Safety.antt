-- ===== src/Api/Safety.antt =====
-- Who can change the hub by way of the API.
use lattice_hub.Api.{Served, enrollment_approved, Response}
use lattice_hub.Base.{
  ℕ, ◌≡◌, refl, sym, ap, ◌∙◌, ◌≢◌, ◌⊎◌, inl, inr, Bool, true, ◌&&◌, Option, some, List, [], ◌∷◌,
  ◌++◌, arith, if◌then◌else◌, Text, length, text_eq, text_eq_iff, Bool-cases, Result, ok, err,
  false, none, drop, drop-append, text_eq_refl, ◌↔◌, some-injective,
}
use lattice_hub.Server.{Answer, Env, Server}
use lattice_hub.Server.Enrollment.{ApprovalParams, approve_enrollment}
use lattice_hub.Api.Enrollments.{
  approve_route, v1_approve_enrollment, approved_reply, approved_and_configured, params_of,
}
use lattice_hub.Api.Ids.{adapter_type_from_string}
use lattice_hub.Api.Access.{
  Tier, open_tier, key_tier, admin_tier, Keys, authorised, has_prefix, trim_prefix, carries_key,
  bearer,
}
use lattice_hub.Nodes.{NodeInfo}
use lattice_hub.Api.Nodes.{show_node, v1_get_node, find_node, v1_get_nodes}
use lattice_hub.Api.Control.{get_health, v1_status}
use lattice_hub.Api.Routes.{
  all_enrollments, old_approve, broadcast, configure, configure_all, health_reports, node_at,
  every_node, pending, read_power, old_reject, server_start, server_stop, status_of_hub,
  v1_all_enrollments, v1_approve, v1_change_node, v1_command_node, v1_command_status,
  v1_command_zone, v1_new_zone, v1_pending, v1_reject, v1_remove_node, v1_remove_zone,
  v1_rename_zone, v1_zones, write_power, Request, health, v1_nodes, v1_status_of, v1_node, tier,
  handle, serve,
}
use lattice_hub.Api.Commands.{Uuid}

has_prefix_sound : (p t : Text) → has_prefix p t ≡ true → t ≡ p ++ drop (length p) t
unfolding has_prefix
has_prefix_sound [] t h = refl
has_prefix_sound (c ∷ p) [] h = absurd (ground arith)
has_prefix_sound (c ∷ p) (d ∷ t) h = ground (arith, has_prefix_sound p t)

pub has_prefix-append : (p t : Text) → has_prefix p (p ++ t) ≡ true
unfolding has_prefix
has_prefix-append [] t = refl
has_prefix-append (c ∷ p) t = ground (arith, has_prefix-append p t)

pub trim_prefix-append : (p t : Text) → trim_prefix p (p ++ t) ≡ t
unfolding trim_prefix
trim_prefix-append p t = rw (has_prefix-append p t) (drop-append p t)

pub trim_prefix_sound : (p t : Text) → has_prefix p t ≡ true → t ≡ p ++ trim_prefix p t
unfolding trim_prefix
trim_prefix_sound p t h = rw h (has_prefix_sound p t h)

-- The header that AuthMiddleware lets through is "Bearer ", a single blank, and the key, and no
-- other.
carries_key_iff : (key auth : Text) → (carries_key key auth ≡ true) ↔ (auth ≡ bearer ++ key)
unfolding carries_key
carries_key_iff key auth = (
  λ h.
      let (p, q) = and_split (has_prefix bearer auth) h in
      trim_prefix_sound bearer auth p
      ∙ ap (λ (t : Text). bearer ++ t) ((text_eq_iff (trim_prefix bearer auth) key).0 q),
  λ e. rw (e, has_prefix-append bearer key, trim_prefix-append bearer key) (text_eq_refl key),
)
  where
    and_split : (a : Bool) {b : Bool} → (a && b) ≡ true → (a ≡ true) × (b ≡ true)
    and_split a h = ground arith

-- The key of a tier; without an admin key, the admin tier's is the API key.
abbrev pub key_of : Keys → Tier → Text
key_of k open_tier = []
key_of k key_tier = k.api_key
key_of k admin_tier = if text_eq k.admin_key [] then k.api_key else k.admin_key

authorised_lem :
    (k : Keys) (t : Tier) (auth : Text)
    → k.api_key ≢ []
    → authorised k t auth ≡ true
    → (t ≡ open_tier) ⊎ (auth ≡ bearer ++ key_of k t)
unfolding authorised
authorised_lem k open_tier auth n h = inl refl
authorised_lem k key_tier auth n h =
    inr (ground (arith, text_eq_iff k.api_key [], carries_key_iff k.api_key auth))
authorised_lem k admin_tier auth n h = elim (Bool-cases (text_eq k.admin_key [])) [
  | inl e ↦ inr (rw e (ground (arith, e, text_eq_iff k.api_key [], carries_key_iff k.api_key auth)))
  | inr e ↦ inr (rw e (ground (arith, e, carries_key_iff k.admin_key auth)))
]

pub v1_get_node-same : (env : Env) (s : Server) (id : Text) → (v1_get_node env s id).0 ≡ s
unfolding v1_get_node
v1_get_node-same env s id = shown (find_node s id)
  where
    shown : (r : Result Response NodeInfo) → (show_node env s r).0 ≡ s
    shown (err r) = refl
    shown (ok n) = refl

module _ (is_output : ℕ → Bool) (net_parse_mac : Text → Option (List ℕ)) where
  handle-open :
      (env : Env) (u : Uuid) (s : Server) (r : Request) (t : Server) (resp : Option Response)
      → tier r ≡ open_tier
      → handle is_output net_parse_mac env u s r ≡ some (t, resp)
      → t ≡ s
  unfolding tier handle get_health v1_get_nodes v1_status
  handle-open env u s health t resp h e =
      sym (ap (λ (p : Served). p.0) (some-injective _ (t, resp) e)) ∙ refl
  handle-open env u s v1_nodes t resp h e =
      sym (ap (λ (p : Served). p.0) (some-injective _ (t, resp) e)) ∙ refl
  handle-open env u s v1_status_of t resp h e =
      sym (ap (λ (p : Served). p.0) (some-injective _ (t, resp) e)) ∙ refl
  handle-open env u s (v1_node id) t resp h e =
      sym (ap (λ (p : Served). p.0) (some-injective _ (t, resp) e)) ∙ (v1_get_node-same env s id)
  handle-open env u s every_node t resp h e = absurd (ground arith)
  handle-open env u s status_of_hub t resp h e = absurd (ground arith)
  handle-open env u s health_reports t resp h e = absurd (ground arith)
  handle-open env u s server_start t resp h e = absurd (ground arith)
  handle-open env u s server_stop t resp h e = absurd (ground arith)
  handle-open env u s (node_at _) t resp h e = absurd (ground arith)
  handle-open env u s (configure _ _) t resp h e = absurd (ground arith)
  handle-open env u s (configure_all _) t resp h e = absurd (ground arith)
  handle-open env u s (broadcast _) t resp h e = absurd (ground arith)
  handle-open env u s pending t resp h e = absurd (ground arith)
  handle-open env u s all_enrollments t resp h e = absurd (ground arith)
  handle-open env u s v1_pending t resp h e = absurd (ground arith)
  handle-open env u s v1_all_enrollments t resp h e = absurd (ground arith)
  handle-open env u s (old_approve _ _) t resp h e = absurd (ground arith)
  handle-open env u s (old_reject _) t resp h e = absurd (ground arith)
  handle-open env u s read_power t resp h e = absurd (ground arith)
  handle-open env u s (write_power _) t resp h e = absurd (ground arith)
  handle-open env u s v1_zones t resp h e = absurd (ground arith)
  handle-open env u s (v1_new_zone _) t resp h e = absurd (ground arith)
  handle-open env u s (v1_rename_zone _ _) t resp h e = absurd (ground arith)
  handle-open env u s (v1_command_zone _ _) t resp h e = absurd (ground arith)
  handle-open env u s (v1_change_node _ _) t resp h e = absurd (ground arith)
  handle-open env u s (v1_command_node _ _) t resp h e = absurd (ground arith)
  handle-open env u s (v1_command_status _ _) t resp h e = absurd (ground arith)
  handle-open env u s (v1_approve _ _) t resp h e = absurd (ground arith)
  handle-open env u s (v1_reject _) t resp h e = absurd (ground arith)
  handle-open env u s (v1_remove_node _) t resp h e = absurd (ground arith)
  handle-open env u s (v1_remove_zone _) t resp h e = absurd (ground arith)

  -- With an API key set, the API changes the hub only for a caller whose header carries the key of
  -- the route's tier: the admin key for an approval by the v1 route, a rejection by it and a
  -- deletion, the API key for every other route that changes anything. Without an admin key the API
  -- key takes its place.
  pub serve-authorised :
      (k : Keys) (auth : Text) (env : Env) (u : Uuid) (s : Server) (r : Request) (t : Server)
      (resp : Option Response)
      → k.api_key ≢ []
      → serve is_output net_parse_mac k auth env u s r ≡ some (t, resp)
      → (t ≡ s) ⊎ (auth ≡ bearer ++ key_of k (tier r))
  unfolding serve
  serve-authorised k auth env u s r t resp n e = elim (Bool-cases (authorised k (tier r) auth)) [
    | inr h ↦ inl (ground (arith, h))
    | inl h ↦ elim (authorised_lem k (tier r) auth n h) [
      | inl o ↦ inl (handle-open env u s r t resp o (rw h at e))
      | inr q ↦ inr q
    ]
  ]

is_set_lem : (t : Text) → t ≢ [] → text_eq t [] ≡ false
is_set_lem t n = ground (arith, text_eq_iff t [])

module _ (is_output : ℕ → Bool) (net_parse_mac : Text → Option (List ℕ)) where
  v1_approve_enrollment-untyped :
      (env : Env) (s : Server) (mac : Text) (body : Option ApprovalParams)
      → adapter_type_from_string (params_of body).adapter_type_str ≡ none
      → v1_approve_enrollment net_parse_mac env s mac body ≡ approve_route env s mac body
  unfolding v1_approve_enrollment approve_route
  v1_approve_enrollment-untyped env s mac body e =
      same (approve_enrollment env s mac (params_of body))
    where
      same :
          (a : Answer)
          → approved_and_configured net_parse_mac env mac (params_of body).adapter_type_str a
            ≡ approved_reply enrollment_approved a
      same (t, none) = rw e refl
      same (t, some x) = refl

  -- The two routes for an approval do the same with a body that names no type that may be written,
  -- but ask for different keys: what the v1 route does for the admin key, the route without a
  -- version does for the API key alone.
  pub serve-approve :
      (k : Keys) (env : Env) (u : Uuid) (s : Server) (mac : Text) (body : Option ApprovalParams)
      → k.api_key ≢ []
      → k.admin_key ≢ []
      → adapter_type_from_string (params_of body).adapter_type_str ≡ none
      → serve is_output net_parse_mac k (bearer ++ k.api_key) env u s (old_approve mac body)
        ≡ serve is_output net_parse_mac k (bearer ++ k.admin_key) env u s (v1_approve mac body)
  unfolding serve handle tier authorised
  serve-approve k env u s mac body n m e =
      rw
        (
          is_set_lem k.api_key n,
          is_set_lem k.admin_key m,
          (carries_key_iff k.api_key (bearer ++ k.api_key)).1 refl,
          (carries_key_iff k.admin_key (bearer ++ k.admin_key)).1 refl,
          v1_approve_enrollment-untyped env s mac body e,
        )
        refl
