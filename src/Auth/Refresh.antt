-- ===== src/Auth/Refresh.antt =====
-- proxy/src/token_authenticator.rs: `ClientInterceptor::new` and the thread that it spawns, one turn
-- of the loop at a time. A time counts nanoseconds from the earliest one that `SystemTime` holds.
use shredstream_proxy.Common.{
  ℕ, ◌-◌, ◌*◌, Bool, true, false, Option, none, some, List, [], ◌∷◌, ◌++◌, Result, ok, err,
  and_then, ok_or, ltb, if◌then◌else◌,
}
use shredstream_proxy.Auth.{
  Text, Rpc, Token, Keypair, AuthService, BlockEngineConnectionError, deserialization, auth,
}

pub data AuthType : Type 0 where
  full_auth access_token : AuthType

-- The fields of the `token_auth` datapoint that the code sets from what happened.
pub record TokenAuth : Type 0 where
  pub auth_type : AuthType
  pub is_error : Bool

-- The loop goes on, it has read its exit flag, or it has panicked.
pub data RefreshPhase : Type 0 where
  running finished panicked : RefreshPhase

-- The thread's variables, the shared `bearer_token` and the datapoints it has sent, the newest last.
pub record RefreshThread (R : Rpc) : Type 0 where
  pub bearer_token : Text
  pub refresh_token : Token R
  pub access_token_expiration : R.Timestamp
  pub phase : RefreshPhase
  pub datapoints : List TokenAuth

-- `Duration::from_secs`.
abbrev pub from_secs : ℕ → ℕ
from_secs s = s * 1000000000

-- `duration_since(now).unwrap_or_default()` of an expiry: 0 once it has passed.
abbrev pub ttl : ℕ → ℕ → ℕ
ttl expiry now = expiry - now

module _ {R : Rpc} where
  unfoldable pub report_token_auth : AuthType → Bool → RefreshThread R → RefreshThread R
  report_token_auth auth_type is_error s = record s {
    datapoints = s.datapoints ++ record { auth_type = auth_type; is_error = is_error } ∷ [];
  }

  -- The new access token is shared before its expiry is unwrapped.
  unfoldable pub store_access :
      Token R
      → (R.Timestamp → RefreshThread R → RefreshThread R)
      → RefreshThread R
      → RefreshThread R
  store_access token next s = elim token.expires_at_utc [
    | some expiry ↦ next expiry (record s { bearer_token = token.value })
    | none ↦ record s { bearer_token = token.value; phase = panicked }
  ]

module _ {R : Rpc} where
  -- The whole authentication again.
  unfoldable pub full_auth_turn :
      Result (BlockEngineConnectionError R) (Token R × Token R) → RefreshThread R → RefreshThread R
  unfolding report_token_auth store_access
  full_auth_turn (ok tokens) s =
      store_access tokens.0
        (λ expiry s'.
          report_token_auth full_auth false
            (record s' { access_token_expiration = expiry; refresh_token = tokens.1 }))
        s
  full_auth_turn (err e) s = report_token_auth full_auth true s

  -- A new access token for the refresh token.
  unfoldable pub access_token_turn :
      Result R.Status (Option (Token R)) → RefreshThread R → RefreshThread R
  unfolding report_token_auth store_access
  access_token_turn (ok (some token)) s =
      store_access token
        (λ expiry s'.
          report_token_auth access_token false (record s' { access_token_expiration = expiry }))
        s
  access_token_turn (ok none) s = record s { phase = panicked }
  access_token_turn (err e) s = report_token_auth access_token true s

  -- `Timestamp` of the refresh token, as a system time; both steps are unwrapped.
  unfoldable pub refresh_expiry : Token R → Option ℕ
  refresh_expiry token = elim token.expires_at_utc [
    | none ↦ none
    | some expires_at ↦ R.system_time expires_at
  ]

  module _ (keypair : Keypair) (role : ℕ) where
    -- The refresh token expires later than in five minutes: the access token is looked at.
    unfoldable pub access_turn : (now : ℕ) → AuthService R → RefreshThread R → RefreshThread R
    unfolding access_token_turn
    access_turn now service s = elim (R.system_time s.access_token_expiration) [
      | none ↦ record s { phase = panicked }
      | some expiry ↦
          if ltb (ttl expiry now) (from_secs (5 * 60))
          then access_token_turn (service.refresh_access_token s.refresh_token.value) s
          else s
    ]

    unfoldable pub timed_turn : (now : ℕ) → AuthService R → RefreshThread R → RefreshThread R
    unfolding refresh_expiry full_auth_turn access_turn
    timed_turn now service s = elim (refresh_expiry s.refresh_token) [
      | none ↦ record s { phase = panicked }
      | some expiry ↦
          if ltb (ttl expiry now) (from_secs (5 * 60))
          then full_auth_turn (auth service keypair role) s
          else access_turn now service s
    ]

    -- One turn of the loop, if the thread still runs.
    unfoldable pub phase_turn :
        RefreshPhase → (exit : Bool) → (now : ℕ) → AuthService R → RefreshThread R → RefreshThread R
    unfolding timed_turn
    phase_turn running exit now service s =
        if exit then record s { phase = finished } else timed_turn now service s
    phase_turn finished exit now service s = s
    phase_turn panicked exit now service s = s

    unfoldable pub refresh_turn :
        (exit : Bool) → (now : ℕ) → AuthService R → RefreshThread R → RefreshThread R
    unfolding phase_turn
    refresh_turn exit now service s = phase_turn s.phase exit now service s

    -- What each turn meets: the exit flag, the time, and the service's answers.
    unfoldable pub refresh_loop :
        List (Bool × ℕ × AuthService R) → RefreshThread R → RefreshThread R
    unfolding refresh_turn
    refresh_loop [] s = s
    refresh_loop ((exit, now, service) ∷ rest) s =
        refresh_loop rest (refresh_turn exit now service s)

  -- The interceptor's thread as `new` leaves it, or the error.
  unfoldable pub start_refresh :
      Token R × Token R → Result (BlockEngineConnectionError R) (RefreshThread R)
  start_refresh (access, refresh) = and_then (ok_or deserialization access.expires_at_utc) λ expiry.
      ok (record {
        bearer_token = access.value;
        refresh_token = refresh;
        access_token_expiration = expiry;
        phase = running;
        datapoints = [];
      })

  unfoldable pub new :
      AuthService R → Keypair → (role : ℕ) → Result (BlockEngineConnectionError R) (RefreshThread R)
  unfolding auth start_refresh
  new service keypair role = and_then (auth service keypair role) start_refresh
