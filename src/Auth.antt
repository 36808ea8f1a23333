-- ===== src/Auth.antt =====
-- proxy/src/token_authenticator.rs: the connection's access token, its refresh and its use.
pub mod Refresh
pub mod Answers
pub mod Complete
pub mod Lasting
pub mod Kept
pub mod Interceptor
pub mod Channel
pub use shredstream_proxy.Common.{Text}
use shredstream_proxy.Common.{
  ℕ, ◌≡◌, Bool, Option, none, some, List, [], ◌∷◌, ◌++◌, Result, ok, err, and_then, map_err, ok_or,
}

-- What the code takes from `tonic` and `prost_types`: their types, `SystemTime::try_from` of a
-- timestamp in nanoseconds from the earliest time there is, `Status::invalid_argument`, and the texts
-- that parse as a metadata value, the others with their error's text.
pub record Rpc : Type 1 where
  pub Timestamp : Type 0
  pub TransportError : Type 0
  pub Status : Type 0
  pub system_time : Timestamp → Option ℕ
  pub invalid_argument : Text → Status
  pub parse_metadata : Text → Result Text Text

-- `jito_protos::auth::Token`.
pub record Token (R : Rpc) : Type 0 where
  pub value : Text
  pub expires_at_utc : Option R.Timestamp

-- The keypair: its public key's bytes and its text, and `sign_message`.
pub record Keypair : Type 0 where
  pub pubkey : Text
  pub pubkey_text : Text
  pub sign_message : Text → Text

pub record GenerateAuthTokensRequest : Type 0 where
  pub challenge : Text
  pub client_pubkey : Text
  pub signed_challenge : Text

pub record GenerateAuthTokensResponse (R : Rpc) : Type 0 where
  pub access_token : Option (Token R)
  pub refresh_token : Option (Token R)

-- What the auth service answers to each request at one moment, or its status.
pub record AuthService (R : Rpc) : Type 0 where
  pub generate_auth_challenge : (role : ℕ) (pubkey : Text) → Result R.Status Text
  pub generate_auth_tokens :
      GenerateAuthTokensRequest → Result R.Status (GenerateAuthTokensResponse R)
  pub refresh_access_token : (refresh_token : Text) → Result R.Status (Option (Token R))

-- With `tonic`'s transport error and its status.
pub data BlockEngineConnectionError (R : Rpc) : Type 0 where
  transport : R.TransportError → BlockEngineConnectionError R
  client : R.Status → BlockEngineConnectionError R
  deserialization : BlockEngineConnectionError R

-- `format!("{}-{}", pubkey, challenge)`.
abbrev pub challenge_text : Keypair → Text → Text
challenge_text keypair challenge = keypair.pubkey_text ++ 45 ∷ challenge

unfoldable pub tokens_request : Keypair → Text → GenerateAuthTokensRequest
tokens_request keypair challenge = record {
  challenge = challenge_text keypair challenge;
  client_pubkey = keypair.pubkey;
  signed_challenge = keypair.sign_message (challenge_text keypair challenge);
}

module _ {R : Rpc} where
  -- The two tokens of the answer, both of which must be there.
  unfoldable pub both_tokens :
      GenerateAuthTokensResponse R → Result (BlockEngineConnectionError R) (Token R × Token R)
  both_tokens tokens = and_then (ok_or deserialization tokens.access_token) λ access.
      and_then (ok_or deserialization tokens.refresh_token) λ refresh. ok (access, refresh)

  -- Returns the access token and the refresh token.
  unfoldable pub auth :
      AuthService R
      → Keypair
      → (role : ℕ) → Result (BlockEngineConnectionError R) (Token R × Token R)
  unfolding tokens_request both_tokens
  auth service keypair role =
      and_then (map_err client (service.generate_auth_challenge role keypair.pubkey)) λ challenge.
        and_then (map_err client (service.generate_auth_tokens (tokens_request keypair challenge)))
          both_tokens
