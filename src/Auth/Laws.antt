-- ===== src/Auth/Laws.antt =====
-- Who passes the authentication.
use vxapigateway.Prelude.{ℕ, ◌≡◌, ◌≢◌, ◌⊎◌, true, false, Option, none, some}
use vxapigateway.Prelude.Bytes.{Bytes, codes}
use vxapigateway.Auth.{Jwt, signing_key, is_expired}

module _ (jwt : Jwt) where
  -- jwt.Parse returns a token without an error only if its function has named a key for it.
  abbrev pub ParseAsksKey : Type 0
  ParseAsksKey =
      (key : jwt.Token → Option Bytes) (text : Bytes) (token : jwt.Token)
      → jwt.parse key text ≡ some token
      → key token ≢ none

  -- A text that the JWT library accepts as a valid token under HMAC, and that has not expired.
  pub record IsGenuine (now : ℕ) (secret text : Bytes) (claims : jwt.Claims) : Type 0 where
    pub token : jwt.Token
    pub parsed : jwt.parse (signing_key jwt secret) text ≡ some token
    pub signed : jwt.is_hmac token ≡ true
    pub valid : jwt.is_valid token ≡ true
    pub claimed : jwt.map_claims token ≡ some claims
    pub lasting : is_expired jwt now (jwt.exp claims) ≡ false

  -- The hash of the key is that of a known key.
  abbrev pub IsKnownKey : (Bytes → Bytes) → Bytes → Type 0
  IsKnownKey hash key =
      (hash key ≡ hash (codes "demo-api-key-123"))
      ⊎ ((hash key ≡ hash (codes "production-key-456"))
          ⊎ (hash key ≡ hash (codes "development-key-789")))
