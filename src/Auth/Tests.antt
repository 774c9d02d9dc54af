-- ===== src/Auth/Tests.antt =====
-- The theorem about authentication with a small JWT library: a token is its own text, and has a
-- valid signature if it begins with the key.
use vxapigateway.Prelude.{true, [], Option, none, some, if◌then◌else◌}
use vxapigateway.Prelude.Bytes.{Bytes, codes, beq, has_prefix}
use vxapigateway.Client.{Request}
use vxapigateway.Auth.{Jwt}

abbrev checked : Bytes → Option Bytes → Option Bytes
checked text none = none
checked text (some key) = if has_prefix text key then some text else none

abbrev library : Jwt
library = record {
  Token = Bytes;
  Claims = Bytes;
  parse = λ key text. checked text (key text);
  is_hmac = λ token. true;
  map_claims = λ token. some token;
  is_valid = λ token. true;
  exp = λ claims. some 200;
  sub = λ claims. some claims;
}

abbrev headers : Bytes → Bytes
headers name = if beq name (codes "Authorization") then codes "Bearer k7" else []

abbrev request : Request
request = record {
  method = codes "GET";
  host = codes "a";
  path = codes "/";
  remote_addr = codes "10.0.0.7:90";
  headers = headers;
}
