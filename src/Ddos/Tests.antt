-- ===== src/Ddos/Tests.antt =====
-- The theorems about the DDoS protection at concrete requests.
use vxapigateway.Prelude.{◌≡◌, refl, true, false, List, [], ◌∷◌, arith, none}
use vxapigateway.Prelude.Bytes.{Bytes, codes}
use vxapigateway.Ddos.{
  DdosProtection, new_ddos_protection, is_blocked, record_request, Operation, records, cleans,
  checks, blacklists,
}
use vxapigateway.Ddos.Cleanup.{answers, without_cleans}
use vxapigateway.Ddos.Cleanup.Count.{answers-without_cleans}
use vxapigateway.Ddos.Window.{after_requests, record_request-threshold, record_request-blocks}

abbrev ip : Bytes
ip = codes "10.0.0.7"

-- Two requests a minute are allowed; a block lasts 1000 nanoseconds.
abbrev two_allowed : DdosProtection
two_allowed = record {
  requests = λ _. none;
  blocked = λ _. none;
  threshold = 2;
  duration = 1000;
  whitelist = λ _. false;
  blacklist = λ _. false;
  blocked_total = 0;
}

two_allowed_is_new : two_allowed ≡ new_ddos_protection 2 1000
unfolding new_ddos_protection
two_allowed_is_new = refl

abbrev some_operations : List Operation
some_operations = blacklists ip ∷ records 5 ip ∷ cleans 6 ∷ checks 7 ip ∷ []

-- The third request in a minute is denied.
record_request-threshold_example :
    ((record_request 10 ip two_allowed).0 ≡ false)
    × ((record_request 30 ip (after_requests ip (10 ∷ 20 ∷ []) two_allowed)).0 ≡ true)
record_request-threshold_example =
    record_request-threshold 10 30 (20 ∷ []) ip two_allowed refl refl (omega arith, tt)
      (omega arith) (omega arith) (omega arith)

abbrev denied : DdosProtection
denied = after_requests ip (10 ∷ 20 ∷ []) two_allowed

record_request-blocks_example : (is_blocked 500 ip (record_request 30 ip denied).1).0 ≡ true
unfolding record_request after_requests
record_request-blocks_example = record_request-blocks 30 500 ip denied refl

-- The block of a third request runs out and is cleaned away.
abbrev cleaned_between : List Operation
cleaned_between =
    records 10 ip
    ∷ records 20 ip
    ∷ cleans 25
    ∷ records 30 ip
    ∷ checks 40 ip
    ∷ cleans 2000
    ∷ checks 2001 ip
    ∷ []

answers-without_cleans_example :
    answers cleaned_between two_allowed ≡ answers (without_cleans cleaned_between) two_allowed
answers-without_cleans_example = answers-without_cleans cleaned_between 0 two_allowed (
  omega arith,
  (omega arith, (omega arith, (omega arith, (omega arith, (omega arith, (omega arith, tt)))))),
)
