-- ===== src/Auth/Answers.antt =====
-- proxy/src/token_authenticator.rs: what `auth` and `ClientInterceptor::new` answer, error by error.
use shredstream_proxy.Common.{
  ℕ, ◌≡◌, subst, none, some, Option-cases, [], inl, inr, Result, ok, err, Result-cases,
}
use shredstream_proxy.Auth.{
  Text, Rpc, Token, Keypair, AuthService, GenerateAuthTokensResponse, BlockEngineConnectionError,
  client, deserialization, auth, tokens_request, both_tokens,
}
use shredstream_proxy.Auth.Refresh.{RefreshThread, running, new, start_refresh}

module _ {R : Rpc} (service : AuthService R) (keypair : Keypair) (role : ℕ) where
  -- The service sends a challenge, and answers the signed challenge with these tokens.
  pub record Granted (tokens : GenerateAuthTokensResponse R) : Type 0 where
    pub challenge : Text
    pub challenged : service.generate_auth_challenge role keypair.pubkey ≡ ok challenge
    pub answered : service.generate_auth_tokens (tokens_request keypair challenge) ≡ ok tokens

  -- The answers that lead to each result of `auth`.
  pub data AuthAnswer : Result (BlockEngineConnectionError R) (Token R × Token R) → Type 0 where
    no_challenge :
        (status : R.Status)
        → service.generate_auth_challenge role keypair.pubkey ≡ err status
        → AuthAnswer (err (client status))
    no_tokens :
        (challenge : Text) (status : R.Status)
        → service.generate_auth_challenge role keypair.pubkey ≡ ok challenge
        → service.generate_auth_tokens (tokens_request keypair challenge) ≡ err status
        → AuthAnswer (err (client status))
    no_access_token :
        (tokens : GenerateAuthTokensResponse R)
        → Granted tokens
        → tokens.access_token ≡ none
        → AuthAnswer (err deserialization)
    no_refresh_token :
        (tokens : GenerateAuthTokensResponse R) (access : Token R)
        → Granted tokens
        → tokens.access_token ≡ some access
        → tokens.refresh_token ≡ none
        → AuthAnswer (err deserialization)
    granted :
        (tokens : GenerateAuthTokensResponse R) (access refresh : Token R)
        → Granted tokens
        → tokens.access_token ≡ some access
        → tokens.refresh_token ≡ some refresh
        → AuthAnswer (ok (access, refresh))

  both_tokens-AuthAnswer :
      (tokens : GenerateAuthTokensResponse R) → Granted tokens → AuthAnswer (both_tokens tokens)
  unfolding both_tokens
  both_tokens-AuthAnswer tokens g = elim (Option-cases tokens.access_token) [
    | inl e ↦ rw e (no_access_token tokens g e)
    | inr (a, e) ↦ elim (Option-cases tokens.refresh_token) [
      | inl f ↦ rw (e, f) (no_refresh_token tokens a g e f)
      | inr (b, f) ↦ rw (e, f) (granted tokens a b g e f)
    ]
  ]

  pub auth-AuthAnswer : AuthAnswer (auth service keypair role)
  unfolding auth
  auth-AuthAnswer = elim (Result-cases (service.generate_auth_challenge role keypair.pubkey)) [
    | inr (status, e) ↦ rw e (no_challenge status e)
    | inl (c, e) ↦ elim (Result-cases (service.generate_auth_tokens (tokens_request keypair c))) [
      | inr (status, f) ↦ rw (e, f) (no_tokens c status e f)
      | inl (tokens, f) ↦
          rw (e, f)
            (both_tokens-AuthAnswer tokens (record { challenge = c; challenged = e; answered = f }))
    ]
  ]

  -- The answers that lead to each result of `new`.
  pub data NewAnswer : Result (BlockEngineConnectionError R) (RefreshThread R) → Type 0 where
    failed : {e : BlockEngineConnectionError R} → AuthAnswer (err e) → NewAnswer (err e)
    no_expiration :
        (access refresh : Token R)
        → AuthAnswer (ok (access, refresh))
        → access.expires_at_utc ≡ none
        → NewAnswer (err deserialization)
    started :
        (access refresh : Token R) (expiry : R.Timestamp)
        → AuthAnswer (ok (access, refresh))
        → access.expires_at_utc ≡ some expiry
        → NewAnswer (
            ok (record {
              bearer_token = access.value;
              refresh_token = refresh;
              access_token_expiration = expiry;
              phase = running;
              datapoints = [];
            }))

  start_refresh-NewAnswer :
      (access refresh : Token R)
      → AuthAnswer (ok (access, refresh))
      → NewAnswer (start_refresh (access, refresh))
  unfolding start_refresh
  start_refresh-NewAnswer a b h = elim (Option-cases a.expires_at_utc) [
    | inl e ↦ rw e (no_expiration a b h e)
    | inr (t, e) ↦ rw e (started a b t h e)
  ]

  -- `ClientInterceptor::new` against every answer of the service: a status at either request is its
  -- client error; an answer without the access token, the refresh token or the access token's
  -- expiry is the deserialization error; else the thread starts with both tokens, the bearer token
  -- the access token.
  pub new-NewAnswer : NewAnswer (new service keypair role)
  unfolding new
  new-NewAnswer = elim (Result-cases (auth service keypair role)) [
    | inr (e, h) ↦ rw h (failed (subst AuthAnswer h auth-AuthAnswer))
    | inl (tokens, h) ↦
        rw h (start_refresh-NewAnswer tokens.0 tokens.1 (subst AuthAnswer h auth-AuthAnswer))
  ]
