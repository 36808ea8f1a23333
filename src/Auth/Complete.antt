-- ===== src/Auth/Complete.antt =====
-- proxy/src/token_authenticator.rs: the refresh thread against a service that dates its tokens.
use shredstream_proxy.Common.{
  ℕ, ◌+◌, ◌*◌, ◌≤◌, ◌<◌, ◌≡◌, refl, true, Bool-cases, some, Option, ◌⊎◌, ◌≢◌, inl, inr, Result, ok,
  err, Result-cases, ltb, arith,
}
use shredstream_proxy.Auth.{
  Text, Rpc, Token, Keypair, AuthService, GenerateAuthTokensRequest, GenerateAuthTokensResponse,
  BlockEngineConnectionError,
}
use shredstream_proxy.Auth.Answers.{
  AuthAnswer, no_challenge, no_tokens, no_access_token, no_refresh_token, granted, auth-AuthAnswer,
}
use shredstream_proxy.Auth.Refresh.{
  AuthType, full_auth, access_token, RefreshThread, panicked, from_secs, ttl, timed_turn,
  access_turn, full_auth_turn, access_token_turn, store_access, report_token_auth, refresh_expiry,
}

-- The timestamp is a system time, with `P` of that time.
pub record Dated (R : Rpc) (P : ℕ → Type 0) (t : R.Timestamp) : Type 0 where
  pub time : ℕ
  pub converts : R.system_time t ≡ some time
  pub holds : P time

-- Any time.
abbrev pub Any : ℕ → Type 0
Any t = Unit {0}

Dated-of : {R : Rpc} {P : ℕ → Type 0} {t : R.Timestamp} (d : Dated R Any t) → P d.time → Dated R P t
Dated-of d p = record { time = d.time; converts = d.converts; holds = p }

module _ {R : Rpc} where
  pub record TokenDated (P : ℕ → Type 0) (token : Token R) : Type 0 where
    pub expiry : R.Timestamp
    pub expires : token.expires_at_utc ≡ some expiry
    pub dated : Dated R P expiry

  -- The tokens that the service sends are dated, and `refresh_access_token` does send one.
  pub record DatesTokens (P : ℕ → Type 0) (service : AuthService R) : Type 0 where
    pub access :
        (request : GenerateAuthTokensRequest) (tokens : GenerateAuthTokensResponse R) (a : Token R)
        → service.generate_auth_tokens request ≡ ok tokens
        → tokens.access_token ≡ some a
        → TokenDated P a
    pub refresh :
        (request : GenerateAuthTokensRequest) (tokens : GenerateAuthTokensResponse R) (a : Token R)
        → service.generate_auth_tokens request ≡ ok tokens
        → tokens.refresh_token ≡ some a
        → TokenDated P a
    pub single :
        (refresh : Text) (answer : Option (Token R))
        → service.refresh_access_token refresh ≡ ok answer
        → (a : Token R) × (answer ≡ some a) × TokenDated P a

  -- The thread has not panicked, and the two times that it reads each turn are dated.
  pub record ThreadDated (P : ℕ → Type 0) (s : RefreshThread R) : Type 0 where
    pub alive : s.phase ≢ panicked
    pub access : Dated R P s.access_token_expiration
    pub refresh : TokenDated P s.refresh_token

  -- A turn is due for a request, and the service's answers to it are an error.
  pub data HasFailed (keypair : Keypair) (role now : ℕ) (service : AuthService R)
      (s : RefreshThread R) : AuthType → Type 0 where
    full_auth_failed :
        (expiry : ℕ) (e : BlockEngineConnectionError R)
        → refresh_expiry s.refresh_token ≡ some expiry
        → expiry < now + from_secs (5 * 60)
        → AuthAnswer service keypair role (err e)
        → HasFailed keypair role now service s full_auth
    access_token_failed :
        (expiry : ℕ) (status : R.Status)
        → R.system_time s.access_token_expiration ≡ some expiry
        → expiry < now + from_secs (5 * 60)
        → service.refresh_access_token s.refresh_token.value ≡ err status
        → HasFailed keypair role now service s access_token

  -- What a turn leads to: a request failed, with all but the datapoints left, or tokens with `P`.
  abbrev pub Renewed :
      (P : ℕ → Type 0)
      → Keypair
      → (role now : ℕ) → AuthService R
      → RefreshThread R
      → RefreshThread R
      → Type 0
  Renewed P keypair role now service s s' =
      ((a : AuthType) × HasFailed keypair role now service s a × (s' ≡ report_token_auth a true s))
      ⊎ ThreadDated P s'

  TokenDated-of :
      {P : ℕ → Type 0} {token : Token R} (d : TokenDated Any token)
      → P d.dated.time
      → TokenDated P token
  TokenDated-of d p = record { expiry = d.expiry; expires = d.expires; dated = Dated-of d.dated p }

  abbrev BothDated :
      (P : ℕ → Type 0) → Result (BlockEngineConnectionError R) (Token R × Token R) → Type 0
  BothDated P (ok tokens) = TokenDated P tokens.0 × TokenDated P tokens.1
  BothDated P (err e) = Unit

  auth-BothDated :
      {P : ℕ → Type 0} {service : AuthService R} {keypair : Keypair} {role : ℕ}
      → DatesTokens P service
      → {r : Result (BlockEngineConnectionError R) (Token R × Token R)}
      → AuthAnswer service keypair role r
      → BothDated P r
  auth-BothDated d (no_challenge status e) = tt
  auth-BothDated d (no_tokens c status e f) = tt
  auth-BothDated d (no_access_token tokens g e) = tt
  auth-BothDated d (no_refresh_token tokens a g e f) = tt
  auth-BothDated d (granted tokens a b g e f) =
      (d.access _ tokens a g.answered e, d.refresh _ tokens b g.answered f)

  full_auth_turn-Renewed :
      {P : ℕ → Type 0} {keypair : Keypair} {role now : ℕ} {service : AuthService R}
      (s : RefreshThread R) (expiry : ℕ)
      → ThreadDated Any s
      → refresh_expiry s.refresh_token ≡ some expiry
      → expiry < now + from_secs (5 * 60)
      → (r : Result (BlockEngineConnectionError R) (Token R × Token R)) → BothDated P r
      → AuthAnswer service keypair role r
      → Renewed P keypair role now service s (full_auth_turn r s)
  unfolding full_auth_turn report_token_auth store_access
  full_auth_turn-Renewed s expiry h x lt (err e) d a =
      inl (full_auth, full_auth_failed expiry e x lt a, refl)
  full_auth_turn-Renewed s expiry h x lt (ok tokens) d a =
      rw d.0.expires (inr (record { alive = h.alive; access = d.0.dated; refresh = d.1 }))

  access_token_turn-Renewed :
      {P : ℕ → Type 0} {keypair : Keypair} {role now : ℕ} (service : AuthService R)
      (s : RefreshThread R)
      → DatesTokens P service
      → (h : ThreadDated Any s) → h.access.time < now + from_secs (5 * 60)
      → TokenDated P s.refresh_token
      → Renewed P keypair role now service s
          (access_token_turn (service.refresh_access_token s.refresh_token.value) s)
  unfolding access_token_turn report_token_auth store_access
  access_token_turn-Renewed {P} service s d h lt l =
      elim (Result-cases (service.refresh_access_token s.refresh_token.value)) [
        | inr (status, e) ↦ rw e (
            inl
              (access_token, access_token_failed h.access.time status h.access.converts lt e, refl))
        | inl (answer, e) ↦
            let r = d.single _ answer e in
            rw (e, r.1)
              (rw r.2.expires (inr (record { alive = h.alive; access = r.2.dated; refresh = l })))
      ]

  refresh_expiry-Dated :
      {P : ℕ → Type 0} {token : Token R} (d : TokenDated P token)
      → refresh_expiry token ≡ some d.dated.time
  unfolding refresh_expiry
  refresh_expiry-Dated d = rw d.expires d.dated.converts

  -- With tokens that last five minutes counted as `P`, a turn renews what does not.
  pub timed_turn-Renewed :
      {P : ℕ → Type 0} (keypair : Keypair) (role now : ℕ) (service : AuthService R)
      (s : RefreshThread R)
      → ((t : ℕ) → now + from_secs (5 * 60) ≤ t → P t)
      → DatesTokens P service
      → ThreadDated Any s
      → Renewed P keypair role now service s (timed_turn keypair role now service s)
  unfolding timed_turn access_turn
  timed_turn-Renewed {P} keypair role now service s lasts d h =
      rw (timed_turn, refresh_expiry-Dated h.refresh)
        elim (Bool-cases (ltb (ttl h.refresh.dated.time now) (from_secs (5 * 60)))) [
          | inl e ↦ rw e (
              full_auth_turn-Renewed s h.refresh.dated.time h (refresh_expiry-Dated h.refresh)
                (ground arith) _ (auth-BothDated d (auth-AuthAnswer service keypair role))
                (auth-AuthAnswer service keypair role))
          | inr e ↦
              rw (e, access_turn, h.access.converts)
                elim (Bool-cases (ltb (ttl h.access.time now) (from_secs (5 * 60)))) [
                  | inl f ↦ rw f (
                      access_token_turn-Renewed service s d h (ground arith)
                        (TokenDated-of h.refresh (lasts _ (ground arith))))
                  | inr f ↦ rw f (
                      inr (record {
                        alive = h.alive;
                        access = Dated-of h.access (lasts _ (ground arith));
                        refresh = TokenDated-of h.refresh (lasts _ (ground arith));
                      }))
                ]
        ]

  pub Dated-Any : {P : ℕ → Type 0} {s : RefreshThread R} → ThreadDated P s → ThreadDated Any s
  Dated-Any h = record {
    alive = h.alive;
    access = record { time = h.access.time; converts = h.access.converts; holds = tt };
    refresh = record {
      expiry = h.refresh.expiry;
      expires = h.refresh.expires;
      dated = record {
        time = h.refresh.dated.time;
        converts = h.refresh.dated.converts;
        holds = tt;
      };
    };
  }
