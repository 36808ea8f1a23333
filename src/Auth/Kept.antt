-- ===== src/Auth/Kept.antt =====
-- proxy/src/token_authenticator.rs: what every turn of the refresh thread keeps.
use shredstream_proxy.Common.{
  ℕ, ◌≡◌, refl, Bool, true, false, some, Option, Option-cases, none, List, [], ◌∷◌, inl, inr,
  Result, ok, err, ltb, Bool-cases, All, ◌*◌,
}
use shredstream_proxy.Auth.{
  Text, Rpc, Token, Keypair, AuthService, GenerateAuthTokensRequest, GenerateAuthTokensResponse,
  BlockEngineConnectionError,
}
use shredstream_proxy.Auth.Answers.{
  AuthAnswer, no_challenge, no_tokens, no_access_token, no_refresh_token, granted, auth-AuthAnswer,
}
use shredstream_proxy.Auth.Refresh.{
  TokenAuth, RefreshPhase, RefreshThread, running, finished, panicked, refresh_turn, phase_turn,
  refresh_loop, timed_turn, access_turn, refresh_expiry, full_auth_turn, access_token_turn,
  store_access, report_token_auth, ttl, from_secs,
}

module _ {R : Rpc} where
  -- Every access token that the service sends has `Q`.
  pub record Issues (Q : Token R → Type 0) (service : AuthService R) : Type 0 where
    pub access :
        (request : GenerateAuthTokensRequest) (tokens : GenerateAuthTokensResponse R) (a : Token R)
        → service.generate_auth_tokens request ≡ ok tokens
        → tokens.access_token ≡ some a
        → Q a
    pub refreshed :
        (refresh : Text) (a : Token R) → service.refresh_access_token refresh ≡ ok (some a) → Q a

  -- A property of the thread that each change of its variables keeps, where the tokens stored have
  -- `Q`.
  pub record IsKept (Q : Token R → Type 0) (I : RefreshThread R → Type 0) : Type 0 where
    pub stored :
        (s : RefreshThread R) (a refresh : Token R) (t : R.Timestamp) (points : List TokenAuth)
        → I s
        → Q a
        → a.expires_at_utc ≡ some t
        → I (record s {
          bearer_token = a.value;
          refresh_token = refresh;
          access_token_expiration = t;
          datapoints = points;
        })
    pub undated :
        (s : RefreshThread R) (a : Token R)
        → I s
        → Q a
        → a.expires_at_utc ≡ none
        → I (record s { bearer_token = a.value; phase = panicked })
    pub reported :
        (s : RefreshThread R) (points : List TokenAuth) → I s → I (record s { datapoints = points })
    pub panics : (s : RefreshThread R) → I s → I (record s { phase = panicked })
    pub exits : (s : RefreshThread R) → I s → I (record s { phase = finished })

  module _ (Q : Token R → Type 0) (I : RefreshThread R → Type 0) (K : IsKept Q I) where
    abbrev Access : Result (BlockEngineConnectionError R) (Token R × Token R) → Type 0
    Access (ok tokens) = Q tokens.0
    Access (err e) = Unit

    pub auth-Access :
        {service : AuthService R} {keypair : Keypair} {role : ℕ}
        → Issues Q service
        → {r : Result (BlockEngineConnectionError R) (Token R × Token R)}
        → AuthAnswer service keypair role r
        → Access r
    auth-Access d (no_challenge status e) = tt
    auth-Access d (no_tokens c status e f) = tt
    auth-Access d (no_access_token tokens g e) = tt
    auth-Access d (no_refresh_token tokens a g e f) = tt
    auth-Access d (granted tokens a b g e f) = d.access _ tokens a g.answered e

    full_auth_turn-kept :
        (r : Result (BlockEngineConnectionError R) (Token R × Token R)) (s : RefreshThread R)
        → Access r
        → I s
        → I (full_auth_turn r s)
    unfolding full_auth_turn report_token_auth store_access
    full_auth_turn-kept (ok tokens) s d p = elim (Option-cases tokens.0.expires_at_utc) [
      | inl e ↦ rw e (K.undated s tokens.0 p d e)
      | inr (t, e) ↦ rw e (K.stored s tokens.0 tokens.1 t _ p d e)
    ]
    full_auth_turn-kept (err e) s d p = K.reported s _ p

    access_token_turn-kept :
        (r : Result R.Status (Option (Token R))) (s : RefreshThread R)
        → ((a : Token R) → r ≡ ok (some a) → Q a)
        → I s
        → I (access_token_turn r s)
    unfolding access_token_turn report_token_auth store_access
    access_token_turn-kept (ok (some a)) s d p = elim (Option-cases a.expires_at_utc) [
      | inl e ↦ rw e (K.undated s a p (d a refl) e)
      | inr (t, e) ↦ rw e (K.stored s a s.refresh_token t _ p (d a refl) e)
    ]
    access_token_turn-kept (ok none) s d p = K.panics s p
    access_token_turn-kept (err e) s d p = K.reported s _ p

    module _ (keypair : Keypair) (role : ℕ) where
      access_turn-kept :
          (now : ℕ) (service : AuthService R) (s : RefreshThread R)
          → Issues Q service
          → I s
          → I (access_turn keypair role now service s)
      unfolding access_turn
      access_turn-kept now service s d p =
          elim (Option-cases (R.system_time s.access_token_expiration)) [
            | inl e ↦ rw (access_turn, e) (K.panics s p)
            | inr (t, e) ↦
                rw (access_turn, e)
                  (elim (Bool-cases (ltb (ttl t now) (from_secs (5 * 60)))) [
                    | inl f ↦ rw f (access_token_turn-kept _ s (d.refreshed _) p)
                    | inr f ↦ rw f p
                  ])
          ]

      timed_turn-kept :
          (now : ℕ) (service : AuthService R) (s : RefreshThread R)
          → Issues Q service
          → I s
          → I (timed_turn keypair role now service s)
      unfolding timed_turn
      timed_turn-kept now service s d p = elim (Option-cases (refresh_expiry s.refresh_token)) [
        | inl e ↦ rw (timed_turn, e) (K.panics s p)
        | inr (t, e) ↦
            rw (timed_turn, e)
              (elim (Bool-cases (ltb (ttl t now) (from_secs (5 * 60)))) [
                | inl f ↦ rw f (
                    full_auth_turn-kept _ s (auth-Access d (auth-AuthAnswer service keypair role))
                      p)
                | inr f ↦ rw f (access_turn-kept now service s d p)
              ])
      ]

      phase_turn-kept :
          (phase : RefreshPhase) (exit : Bool) (now : ℕ) (service : AuthService R)
          (s : RefreshThread R)
          → Issues Q service
          → I s
          → I (phase_turn keypair role phase exit now service s)
      unfolding phase_turn
      phase_turn-kept running true now service s d p = K.exits s p
      phase_turn-kept running false now service s d p = timed_turn-kept now service s d p
      phase_turn-kept finished exit now service s d p = p
      phase_turn-kept panicked exit now service s d p = p

      pub refresh_loop-kept :
          (turns : List (Bool × ℕ × AuthService R)) (s : RefreshThread R)
          → All (λ (t : Bool × ℕ × AuthService R). Issues Q t.2) turns
          → I s
          → I (refresh_loop keypair role turns s)
      unfolding refresh_loop refresh_turn
      refresh_loop-kept [] s d p = p
      refresh_loop-kept ((exit, now, service) ∷ rest) s d p =
          refresh_loop-kept rest _ d.1 (phase_turn-kept s.phase exit now service s d.0 p)
