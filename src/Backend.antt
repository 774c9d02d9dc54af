-- ===== src/Backend.antt =====
-- One upstream server: the Backend of routing.go, its counters, and its health probe.
-- Pointers, locks and atomics are left out: each method here is one atomic step of the source.
use vxapigateway.Prelude.{
  ℕ, Bool, false, [], ◌++◌, Option, none, some, ltb, if◌then◌else◌, ◌&&◌, not,
}
use vxapigateway.Prelude.Bytes.{
  Bytes, codes, beq, has_prefix, has_suffix, contains_byte, trim_prefix,
}
use vxapigateway.Prelude.Word.{add64, dec64}

-- What the gateway reads of a *url.URL; `text` is its String().
pub record Url : Type 0 where
  pub text : Bytes
  pub scheme : Bytes
  pub host : Bytes
  pub hostname : Bytes
  pub port : Bytes
  pub path : Bytes
  pub raw_query : Bytes

-- `connections`, `weight` and `fail_count` are 64-bit patterns. The reverse proxy of a backend is
-- determined by its URL and by `preserve_host`.
pub record Backend : Type 0 where
  pub url : Url
  pub alive : Bool
  pub connections : ℕ
  pub weight : ℕ
  pub preserve_host : Bool
  pub fail_count : ℕ
  pub last_fail : ℕ
  pub health_path : Bytes

unfoldable pub set_alive : Bool → Backend → Backend
set_alive alive b = record b { alive = alive }

unfoldable pub inc_connections : Backend → Backend
inc_connections b = record b { connections = add64 b.connections 1 }

unfoldable pub dec_connections : Backend → Backend
dec_connections b = record b { connections = dec64 b.connections }

unfoldable pub record_failure : ℕ → Backend → Backend
record_failure now b = record b { fail_count = add64 b.fail_count 1; last_fail = now }

unfoldable pub reset_failures : Backend → Backend
reset_failures b = record b { fail_count = 0 }

unfoldable pub single_joining_slash : Bytes → Bytes → Bytes
unfolding has_prefix has_suffix
single_joining_slash a b =
    let aslash = has_suffix a (codes "/") in
    let bslash = has_prefix b (codes "/") in
    if aslash && bslash
    then a ++ trim_prefix b (codes "/")
    else if not aslash && not bslash
    then a ++ (codes "/" ++ b)
    else a ++ b

-- net.JoinHostPort
unfoldable pub join_host_port : Bytes → Bytes → Bytes
join_host_port host port =
    if contains_byte b':' host
    then codes "[" ++ (host ++ (codes "]:" ++ port))
    else host ++ (codes ":" ++ port)

-- What answers the gateway's probes: whether a TCP connect to an address succeeds, and the status
-- of a GET on a URL, or `none` if no request could be made or no reply came.
pub record Network : Type 0 where
  pub dial : Bytes → Bool
  pub get : Url → Option ℕ

module _ (net : Network) where
  unfoldable pub dialable : Url → Bool
  unfolding join_host_port
  dialable u =
      let host =
        if beq u.port []
        then if beq u.scheme (codes "https")
          then join_host_port u.hostname (codes "443")
          else join_host_port u.hostname (codes "80")
        else u.host in
      net.dial host

  unfoldable pub probe : Backend → Bool
  unfolding dialable single_joining_slash
  probe b =
      if beq b.health_path []
      then dialable b.url
      else elim (net.get
          (record b.url { path = single_joining_slash b.url.path b.health_path; raw_query = [] })) [
            | none ↦ false
            | some status ↦ ltb status 500
          ]
