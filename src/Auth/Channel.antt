-- ===== src/Auth/Channel.antt =====
-- proxy/src/token_authenticator.rs and proxy/src/heartbeat.rs: `create_grpc_channel` and
-- `get_grpc_client`.
use shredstream_proxy.Common.{
  ℕ, ◌≡◌, Bool, true, false, Bool-cases, [], ◌∷◌, ◌==◌, inl, inr, Result, ok, and_then-eq-ok,
  map_err-eq-ok, ok_injective, subst, ap, ◌∙◌, and_then, map_err, if◌then◌else◌, ◌&&◌,
}
use shredstream_proxy.Auth.{Text, Rpc, Keypair, AuthService, BlockEngineConnectionError, transport}
use shredstream_proxy.Auth.Refresh.{RefreshThread, new}

-- What the code takes from `tonic::transport`; `auth_service` is the service at a channel's end.
pub record Transport (R : Rpc) : Type 1 where
  pub Endpoint : Type 0
  pub Channel : Type 0
  pub from_shared : Text → Result R.TransportError Endpoint
  pub tls_config : Endpoint → Result R.TransportError Endpoint
  pub connect : Endpoint → Result R.TransportError Channel
  pub auth_service : Channel → AuthService R

unfoldable pub starts_with : Text → Text → Bool
starts_with text [] = true
starts_with [] (p ∷ prefix) = false
starts_with (c ∷ text) (p ∷ prefix) = c == p && starts_with text prefix

abbrev pub https : Text
https = 104 ∷ 116 ∷ 116 ∷ 112 ∷ 115 ∷ []

-- The client's two ends: the channel of the requests, and the thread that keeps their token.
pub record Client {R : Rpc} (T : Transport R) : Type 0 where
  pub searcher_channel : T.Channel
  pub client_interceptor : RefreshThread R

module _ {R : Rpc} (T : Transport R) where
  unfoldable pub endpoint : Text → Result (BlockEngineConnectionError R) T.Endpoint
  unfolding starts_with
  endpoint url =
      and_then (map_err transport (T.from_shared url))
        λ e. if starts_with url https then map_err transport (T.tls_config e) else ok e

  unfoldable pub create_grpc_channel : Text → Result (BlockEngineConnectionError R) T.Channel
  unfolding endpoint
  create_grpc_channel url = and_then (endpoint url) λ e. map_err transport (T.connect e)

  unfoldable pub get_grpc_client :
      (block_engine_url auth_url : Text)
      → Keypair
      → (shredstream_subscriber : ℕ) → Result (BlockEngineConnectionError R) (Client T)
  unfolding create_grpc_channel new
  get_grpc_client block_engine_url auth_url keypair shredstream_subscriber =
      and_then (create_grpc_channel auth_url) λ auth_channel.
        and_then (create_grpc_channel block_engine_url) λ searcher_channel.
          and_then (new (T.auth_service auth_channel) keypair shredstream_subscriber) λ thread.
            ok (record { searcher_channel = searcher_channel; client_interceptor = thread })

  -- A channel to the URL: over TLS with an endpoint that accepts it, if the URL starts with `https`.
  pub data Reaches (url : Text) (channel : T.Channel) : Type 0 where
    secure :
        (e f : T.Endpoint)
        → starts_with url https ≡ true
        → T.from_shared url ≡ ok e
        → T.tls_config e ≡ ok f
        → T.connect f ≡ ok channel
        → Reaches url channel
    plain :
        (e : T.Endpoint)
        → starts_with url https ≡ false
        → T.from_shared url ≡ ok e
        → T.connect e ≡ ok channel
        → Reaches url channel

  create_grpc_channel-Reaches :
      (url : Text) (channel : T.Channel)
      → create_grpc_channel url ≡ ok channel
      → Reaches url channel
  unfolding create_grpc_channel endpoint
  create_grpc_channel-Reaches url channel h =
      let p = and_then-eq-ok (endpoint url) _ h in
      let q = and_then-eq-ok (map_err transport (T.from_shared url)) _ p.1 in
      let e = map_err-eq-ok transport (T.from_shared url) q.1 in
      let c = map_err-eq-ok transport (T.connect p.0) p.2 in
      let tls = λ (x : Bool).
        ◌≡◌ {A = Result (BlockEngineConnectionError R) T.Endpoint}
          (if x then map_err transport (T.tls_config q.0) else ok q.0) (ok p.0) in
      elim (Bool-cases (starts_with url https)) [
        | inl b ↦
            secure q.0 p.0 b e (map_err-eq-ok transport (T.tls_config q.0) (subst tls b q.2)) c
        | inr b ↦ plain q.0 b e (rw (ok_injective (subst tls b q.2)) c)
      ]

  -- If `get_grpc_client` gives a client, then the auth URL and the block engine's URL were each
  -- reached, over TLS if the URL starts with `https`; the client's requests go to the block
  -- engine's channel, and its token is the one that the service at the auth channel issued to this
  -- keypair.
  pub get_grpc_client-Reaches :
      (block_engine_url auth_url : Text) (keypair : Keypair) (shredstream_subscriber : ℕ)
      (c : Client T)
      → get_grpc_client block_engine_url auth_url keypair shredstream_subscriber ≡ ok c
      → (auth_channel : T.Channel) × Reaches auth_url auth_channel
        × Reaches block_engine_url c.searcher_channel
        × (new (T.auth_service auth_channel) keypair shredstream_subscriber
            ≡ ok c.client_interceptor)
  unfolding get_grpc_client
  get_grpc_client-Reaches block_engine_url auth_url keypair role c h =
      let p = and_then-eq-ok (create_grpc_channel auth_url) _ h in
      let q = and_then-eq-ok (create_grpc_channel block_engine_url) _ p.2 in
      let t = and_then-eq-ok (new (T.auth_service p.0) keypair role) _ q.2 in
      let e = ok_injective t.2 in
      (
        p.0,
        create_grpc_channel-Reaches auth_url p.0 p.1,
        subst (λ (x : Client T). Reaches block_engine_url x.searcher_channel) e
            (create_grpc_channel-Reaches block_engine_url q.0 q.1),
        t.1 ∙ ap (λ (x : Client T). ok (x.client_interceptor)) e,
      )
