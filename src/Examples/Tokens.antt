-- ===== src/Examples/Tokens.antt =====
-- The theorems on the access token at a concrete auth service.
use shredstream_proxy.Common.{
  ℕ, ◌≡◌, refl, sym, ap, subst, ◌∙◌, false, some, none, [], ◌∷◌, ok_injective, ok, arith, ◌+◌,
}
use shredstream_proxy.Auth.{
  Text, Rpc, Token, Keypair, AuthService, GenerateAuthTokensRequest, GenerateAuthTokensResponse,
  auth, both_tokens,
}
use shredstream_proxy.Auth.Answers.{NewAnswer, new-NewAnswer}
use shredstream_proxy.Auth.Refresh.{RefreshThread, running, new, start_refresh, refresh_loop}
use shredstream_proxy.Auth.Channel.{
  Transport, Client, https, starts_with, endpoint, create_grpc_channel, get_grpc_client, Reaches,
  get_grpc_client-Reaches,
}
use shredstream_proxy.Auth.Kept.{Issues}
use shredstream_proxy.Auth.Interceptor.{Watched, Carried, bearer, call, call-Authorized}

abbrev toy_rpc : Rpc
toy_rpc = record {
  Timestamp = ℕ;
  TransportError = ℕ;
  Status = Text;
  system_time = λ t. some t;
  invalid_argument = λ t. t;
  parse_metadata = λ t. ok t;
}

abbrev toy_keypair : Keypair
toy_keypair = record { pubkey = 1 ∷ []; pubkey_text = 49 ∷ []; sign_message = λ m. m }

-- An access token and a refresh token that expire at this time.
abbrev toy_token : ℕ → Token toy_rpc
toy_token t = record { value = 65 ∷ []; expires_at_utc = some t }

abbrev toy_service : ℕ → AuthService toy_rpc
toy_service t = record {
  generate_auth_challenge = λ role pubkey. ok (7 ∷ []);
  generate_auth_tokens = λ request.
      ok (record { access_token = some (toy_token t); refresh_token = some (toy_token t) });
  refresh_access_token = λ refresh. ok (some (toy_token t));
}

abbrev toy_thread : RefreshThread toy_rpc
toy_thread = record {
  bearer_token = 65 ∷ [];
  refresh_token = toy_token 0;
  access_token_expiration = 0;
  phase = running;
  datapoints = [];
}

new-NewAnswer_example : NewAnswer (toy_service 5) toy_keypair 0 (new (toy_service 5) toy_keypair 0)
new-NewAnswer_example = new-NewAnswer (toy_service 5) toy_keypair 0

some_inj : {A : Type 0} {x y : A} → some x ≡ some y → x ≡ y
some_inj e = cc

-- Each token of an answer is the one token.
toy_sent :
    {t : ℕ} (request : GenerateAuthTokensRequest) {tokens : GenerateAuthTokensResponse toy_rpc}
    → (toy_service t).generate_auth_tokens request ≡ ok tokens
    → (tokens.access_token ≡ some (toy_token t)) × (tokens.refresh_token ≡ some (toy_token t))
toy_sent request e =
    let h = ok_injective e in
    (
      ap (λ (x : GenerateAuthTokensResponse toy_rpc). x.access_token) (sym h),
      ap (λ (x : GenerateAuthTokensResponse toy_rpc). x.refresh_token) (sym h),
    )

-- The token of the service, which a header carries.
abbrev ToyCarried : ℕ → Token toy_rpc → Type 0
ToyCarried t a = (a ≡ toy_token t) × Carried toy_rpc a.value

toy_service-Issues : (t : ℕ) → Issues (ToyCarried t) (toy_service t)
toy_service-Issues t = record {
  access = λ q ts a e f. subst (ToyCarried t) (some_inj (sym (toy_sent q e).0 ∙ f)) (refl, carried);
  refreshed = λ r a e. subst (ToyCarried t) (some_inj (ok_injective e)) (refl, carried);
}
  where
    carried : Carried toy_rpc (65 ∷ [])
    carried = record { not_empty = λ e. ground arith; parses = refl }

abbrev toy_started : RefreshThread toy_rpc
toy_started = record {
  bearer_token = 65 ∷ [];
  refresh_token = toy_token 5;
  access_token_expiration = 5;
  phase = running;
  datapoints = [];
}

toy_new : new (toy_service 5) toy_keypair 0 ≡ ok toy_started
unfolding new start_refresh auth both_tokens
toy_new = refl

call-Authorized_example :
    Watched
      (λ a. a ≡ toy_token 5)
      (refresh_loop toy_keypair 0 ((false, 3, toy_service 5) ∷ []) toy_started)
    × (call toy_rpc
          (refresh_loop toy_keypair 0 ((false, 3, toy_service 5) ∷ []) toy_started).bearer_token
          (record { authorization = none })
        ≡ ok (record {
          authorization = some (
              bearer
                (refresh_loop toy_keypair 0
                  ((false, 3, toy_service 5) ∷ [])
                  toy_started).bearer_token);
        }))
call-Authorized_example =
    call-Authorized (λ a. a ≡ toy_token 5) toy_keypair 0 (toy_service 5) toy_started
      ((false, 3, toy_service 5) ∷ []) (record { authorization = none }) (toy_service-Issues 5)
      toy_new (toy_service-Issues 5, tt)

abbrev toy_transport : Transport toy_rpc
toy_transport = record {
  Endpoint = ℕ;
  Channel = ℕ;
  from_shared = λ url. ok 1;
  tls_config = λ e. ok (e + 1);
  connect = λ e. ok e;
  auth_service = λ c. toy_service 5;
}

abbrev toy_client : Client toy_transport
toy_client = record { searcher_channel = 1; client_interceptor = toy_started }

-- The auth URL is `https`, the block engine's is not.
toy_connected : get_grpc_client toy_transport (104 ∷ []) https toy_keypair 0 ≡ ok toy_client
unfolding get_grpc_client create_grpc_channel endpoint starts_with new start_refresh auth
    both_tokens
toy_connected = refl

get_grpc_client-Reaches_example :
    (auth_channel : ℕ) × Reaches toy_transport https auth_channel
    × Reaches toy_transport (104 ∷ []) 1
    × (new (toy_service 5) toy_keypair 0 ≡ ok toy_started)
get_grpc_client-Reaches_example =
    get_grpc_client-Reaches toy_transport (104 ∷ []) https toy_keypair 0 toy_client toy_connected
