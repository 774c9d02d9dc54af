-- ===== src/Auth.antt =====
-- Authentication in middleware.go and in `ServeHTTP`. The JWT library and SHA-256 are parameters.
pub mod Laws
mod Tests
use vxapigateway.Prelude.{
  ℕ, ◌≡◌, Bool, true, false, ◌||◌, List, [], ◌∷◌, Option, none, some, if◌then◌else◌,
}
use vxapigateway.Prelude.Bytes.{Bytes, codes, beq, strip?}
use vxapigateway.Prelude.Word.{slt}
use vxapigateway.Client.{Request}

-- Package jwt: `parse` is jwt.Parse, which asks its function for the key of a token; `exp` is the
-- claim "exp" as an int64, a pattern, if it is a number; `sub` the claim "sub" if it is a text.
pub record Jwt : Type 1 where
  pub Token : Type 0
  pub Claims : Type 0
  pub parse : (Token → Option Bytes) → Bytes → Option Token
  pub is_hmac : Token → Bool
  pub map_claims : Token → Option Claims
  pub is_valid : Token → Bool
  pub exp : Claims → Option ℕ
  pub sub : Claims → Option Bytes

module _ (jwt : Jwt) where
  open jwt use {Token, Claims, parse, is_hmac, map_claims, is_valid, exp, sub}

  -- The function given to jwt.Parse.
  unfoldable pub signing_key : Bytes → Token → Option Bytes
  signing_key secret token = if is_hmac token then some secret else none

  abbrev pub is_expired : ℕ → Option ℕ → Bool
  is_expired now none = false
  is_expired now (some at) = slt at now

  abbrev pub unexpired : ℕ → Option Claims → Option Claims
  unexpired now none = none
  unexpired now (some claims) = if is_expired now (exp claims) then none else some claims

  -- `now` is the Unix time, in seconds; `none` is an error.
  unfoldable pub validate_jwt : ℕ → Bytes → Bytes → Option Claims
  unfolding signing_key
  validate_jwt now secret text = elim (parse (signing_key secret) text) [
    | none ↦ none
    | some token ↦ if is_valid token then unexpired now (map_claims token) else none
  ]

  -- The known keys; `hash` is `hashAPIKey`.
  unfoldable pub validate_api_key : (Bytes → Bytes) → Bytes → Bool
  validate_api_key hash key =
      beq (hash (codes "demo-api-key-123")) (hash key)
      || (beq (hash (codes "production-key-456")) (hash key)
          || beq (hash (codes "development-key-789")) (hash key))

  abbrev pub or_empty : Option Bytes → Bytes
  or_empty none = []
  or_empty (some user) = user

  abbrev pub subject : Option Claims → Option Bytes
  subject none = none
  subject (some claims) = some (or_empty (sub claims))

  -- The part of `ServeHTTP` that sets `authenticated` and `userID`; `none` is not authenticated.
  unfoldable pub authenticate : ℕ → Bytes → (Bytes → Bytes) → Request → Option Bytes
  unfolding validate_jwt validate_api_key
  authenticate now secret hash r =
      elim (strip? (codes "Bearer ") (r.headers (codes "Authorization"))) [
        | some token ↦ subject (validate_jwt now secret token)
        | none ↦
            if beq (r.headers (codes "X-Api-Key")) []
            then none
            else if validate_api_key hash (r.headers (codes "X-Api-Key"))
            then some (codes "api-key-user")
            else none
      ]
