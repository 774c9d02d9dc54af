-- ===== src/Ddos.antt =====
-- The DDoSProtection of middleware.go. Each method takes the time that its time.Now() returns, in
-- nanoseconds; the mutex makes it one step. Times do not overflow; the block duration is a 64-bit pattern.
pub mod Lists
pub mod Window
pub mod Cleanup
mod Tests
use vxapigateway.Prelude.{
  ℕ, ◌+◌, ◌-◌, ◌≡◌, Bool, true, false, Option, none, some, ltb, if◌then◌else◌, List, [], ◌∷◌,
}
use vxapigateway.Prelude.Bytes.{Bytes, beq, update}
use vxapigateway.Prelude.Word.{add64, slt, add_duration}

-- time.Minute
abbrev pub minute : ℕ
minute = 60_000_000_000

-- `count` is a 64-bit pattern.
pub record RequestCounter : Type 0 where
  pub count : ℕ
  pub first_seen : ℕ

-- `threshold` is a 64-bit pattern. `blocked_total` is the counter `blocked_ips_total`.
pub record DdosProtection : Type 0 where
  pub requests : Bytes → Option RequestCounter
  pub blocked : Bytes → Option ℕ
  pub threshold : ℕ
  pub duration : ℕ
  pub whitelist : Bytes → Bool
  pub blacklist : Bytes → Bool
  pub blocked_total : ℕ

unfoldable pub new_ddos_protection : ℕ → ℕ → DdosProtection
new_ddos_protection threshold duration = record {
  requests = λ _. none;
  blocked = λ _. none;
  threshold = threshold;
  duration = duration;
  whitelist = λ _. false;
  blacklist = λ _. false;
  blocked_total = 0;
}

unfoldable pub add_to_whitelist : Bytes → DdosProtection → DdosProtection
unfolding beq
add_to_whitelist ip d = record d { whitelist = update d.whitelist ip true }

unfoldable pub add_to_blacklist : Bytes → DdosProtection → DdosProtection
unfolding beq
add_to_blacklist ip d = record d { blacklist = update d.blacklist ip true }

-- A block that has run out is dropped on the way.
unfoldable pub is_blocked : ℕ → Bytes → DdosProtection → Bool × DdosProtection
unfolding beq
is_blocked now ip d =
    if d.whitelist ip
    then (false, d)
    else if d.blacklist ip
    then (true, d)
    else elim (d.blocked ip) [
      | none ↦ (false, d)
      | some block_time ↦
          if ltb now block_time
          then (true, d)
          else (false, record d { blocked = update d.blocked ip none })
    ]

abbrev pub set_counter : Bytes → ℕ → ℕ → DdosProtection → DdosProtection
set_counter ip count first_seen d = record d {
  requests = update d.requests ip (some (record { count = count; first_seen = first_seen }));
}

-- The part of `RecordRequest` for an address that has a counter.
unfoldable pub count_request : ℕ → Bytes → RequestCounter → DdosProtection → Bool × DdosProtection
unfolding beq
count_request now ip counter d =
    if ltb minute (now - counter.first_seen)
    then (false, set_counter ip 1 now d)
    else (let count = add64 counter.count 1 in
        let counted = set_counter ip count counter.first_seen d in
        if slt d.threshold count
        then (
          true,
          record counted {
            blocked = update d.blocked ip (some (add_duration now d.duration));
            blocked_total = d.blocked_total + 1;
          },
        )
        else (false, counted))

unfoldable pub record_request : ℕ → Bytes → DdosProtection → Bool × DdosProtection
unfolding count_request beq
record_request now ip d = if d.whitelist ip then (false, d) else elim (d.requests ip) [
  | none ↦ (false, set_counter ip 1 now d)
  | some counter ↦ count_request now ip counter d
]

abbrev pub keep_counter : ℕ → Option RequestCounter → Option RequestCounter
keep_counter now none = none
keep_counter now (some counter) =
    if ltb minute (now - counter.first_seen) then none else some counter

abbrev pub keep_block : ℕ → Option ℕ → Option ℕ
keep_block now none = none
keep_block now (some block_time) = if ltb block_time now then none else some block_time

-- One round of the loop of `cleanup`.
unfoldable pub cleanup : ℕ → DdosProtection → DdosProtection
cleanup now d = record d {
  requests = λ ip. keep_counter now (d.requests ip);
  blocked = λ ip. keep_block now (d.blocked ip);
}

-- The operations that other code and the clean-up goroutine call, each with its time.
pub data Operation : Type 0 where
  whitelists blacklists : Bytes → Operation
  checks records : ℕ → Bytes → Operation
  cleans : ℕ → Operation

unfoldable pub step : Operation → DdosProtection → DdosProtection
unfolding add_to_whitelist add_to_blacklist is_blocked record_request cleanup
step (whitelists ip) d = add_to_whitelist ip d
step (blacklists ip) d = add_to_blacklist ip d
step (checks now ip) d = (is_blocked now ip d).1
step (records now ip) d = (record_request now ip d).1
step (cleans now) d = cleanup now d

unfoldable pub run : List Operation → DdosProtection → DdosProtection
unfolding step
run [] d = d
run (o ∷ operations) d = run operations (step o d)
