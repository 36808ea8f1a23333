-- ===== src/Auth/Interceptor.antt =====
-- proxy/src/token_authenticator.rs: `Interceptor::call` on the token that the refresh thread shares.
use shredstream_proxy.Common.{
  ℕ, ◌≡◌, ◌≢◌, refl, sym, ◌∙◌, ◌⊎◌, subst, Bool, some, Option, none, List, [], ◌∷◌, inl, inr,
  Result, ok, err, All, map_err, and_then,
}
use shredstream_proxy.Auth.{Text, Rpc, Token, Keypair, AuthService, BlockEngineConnectionError}
use shredstream_proxy.Auth.Answers.{NewAnswer, failed, no_expiration, started, new-NewAnswer}
use shredstream_proxy.Auth.Refresh.{RefreshThread, refresh_loop, new}
use shredstream_proxy.Auth.Kept.{Issues, IsKept, auth-Access, refresh_loop-kept}

-- "missing bearer token", and "Bearer ".
abbrev pub missing_bearer_token : Text
missing_bearer_token =
    109 ∷ 105 ∷ 115 ∷ 115 ∷ 105 ∷ 110 ∷ 103 ∷ 32 ∷ 98 ∷ 101 ∷ 97 ∷ 114 ∷ 101 ∷ 114 ∷ 32 ∷ 116 ∷ 111
    ∷ 107 ∷ 101 ∷ 110 ∷ []

abbrev pub bearer : Text → Text
bearer token = 66 ∷ 101 ∷ 97 ∷ 114 ∷ 101 ∷ 114 ∷ 32 ∷ token

-- The metadata of a request that the interceptor writes.
pub record Request : Type 0 where
  pub authorization : Option Text

module _ (R : Rpc) where
  unfoldable pub call : (bearer_token : Text) → Request → Result R.Status Request
  call [] request = err (R.invalid_argument missing_bearer_token)
  call (c ∷ rest) request =
      and_then (map_err R.invalid_argument (R.parse_metadata (bearer (c ∷ rest))))
        λ value. ok (record { authorization = some value })

  -- A token that the header can carry.
  pub record Carried (token : Text) : Type 0 where
    pub not_empty : token ≢ []
    pub parses : R.parse_metadata (bearer token) ≡ ok (bearer token)

  call-Carried :
      (token : Text) (request : Request)
      → Carried token
      → call token request ≡ ok (record { authorization = some (bearer token) })
  unfolding call
  call-Carried [] request c = absurd (c.not_empty refl)
  call-Carried (c ∷ rest) request h = rw h.parses refl

module _ {R : Rpc} where
  -- The shared token is one with `Q`, and its expiry is the one that the thread reads, if it has one.
  pub record Watched (Q : Token R → Type 0) (s : RefreshThread R) : Type 0 where
    pub token : Token R
    pub issued : Q token
    pub shared : token.value ≡ s.bearer_token
    pub watched :
        (token.expires_at_utc ≡ some s.access_token_expiration) ⊎ (token.expires_at_utc ≡ none)

  Watched-same :
      (Q : Token R → Type 0) (s t : RefreshThread R)
      → Watched Q s
      → t.bearer_token ≡ s.bearer_token
      → t.access_token_expiration ≡ s.access_token_expiration
      → Watched Q t
  Watched-same Q s t h e f = record {
    token = h.token;
    issued = h.issued;
    shared = h.shared ∙ sym e;
    watched = rw f h.watched;
  }

  Watched-IsKept : (Q : Token R → Type 0) → IsKept Q (Watched Q)
  Watched-IsKept Q = record {
    stored =
        λ s a b t points h q e. record { token = a; issued = q; shared = refl; watched = inl e };
    undated = λ s a h q e. record { token = a; issued = q; shared = refl; watched = inr e };
    reported = λ s points h. Watched-same Q s _ h refl refl;
    panics = λ s h. Watched-same Q s _ h refl refl;
    exits = λ s h. Watched-same Q s _ h refl refl;
  }

  abbrev Begins :
      (Q : Token R → Type 0) → Result (BlockEngineConnectionError R) (RefreshThread R) → Type 0
  Begins Q (ok s) = Watched Q s
  Begins Q (err e) = Unit

  new-Begins :
      (Q : Token R → Type 0) {service : AuthService R} {keypair : Keypair} {role : ℕ}
      {r : Result (BlockEngineConnectionError R) (RefreshThread R)}
      → Issues Q service
      → NewAnswer service keypair role r
      → Begins Q r
  new-Begins Q d (failed h) = tt
  new-Begins Q d (no_expiration a b h e) = tt
  new-Begins Q d (started a b t h e) = record {
    token = a;
    issued = auth-Access Q (Watched Q) (Watched-IsKept Q) d h;
    shared = refl;
    watched = inl e;
  }

  -- Once `new` has succeeded against a service whose access tokens have a property Q, are not empty
  -- and can be carried by the header, and as long as the services of all later turns send only such
  -- tokens, whatever the turns meet and also when the refresh thread has exited or panicked: the
  -- shared token is one that was issued with Q, the expiry that the thread reads is that token's
  -- unless it has none, and each request gets the header "Bearer " with the shared token.
  pub call-Authorized :
      (Q : Token R → Type 0) (keypair : Keypair) (role : ℕ) (service : AuthService R)
      (s : RefreshThread R) (turns : List (Bool × ℕ × AuthService R)) (request : Request)
      → Issues (λ a. Q a × Carried R a.value) service
      → new service keypair role ≡ ok s
      → All (λ (t : Bool × ℕ × AuthService R). Issues (λ a. Q a × Carried R a.value) t.2) turns
      → Watched Q (refresh_loop keypair role turns s)
        × (call R (refresh_loop keypair role turns s).bearer_token request
            ≡ ok (record {
              authorization = some (bearer (refresh_loop keypair role turns s).bearer_token);
            }))
  call-Authorized Q keypair role service s turns request d e ds =
      let C = λ (a : Token R). Q a × Carried R a.value in
      let w =
        refresh_loop-kept C (Watched C) (Watched-IsKept C) keypair role turns s ds
          (subst (Begins C) e (new-Begins C d (new-NewAnswer service keypair role))) in
      (
        record { token = w.token; issued = w.issued.0; shared = w.shared; watched = w.watched },
        call-Carried R _ request (subst (Carried R) w.shared w.issued.1),
      )
