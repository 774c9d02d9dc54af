-- ===== src/Breaker/Tests.antt =====
-- The theorems about the breaker at concrete calls.
use vxapigateway.Prelude.{ℕ, ◌+◌, ◌≡◌, refl, Option, none, some, List, [], ◌∷◌, arith}
use vxapigateway.Breaker.{CircuitBreaker, closed, open_, half_open, call}
use vxapigateway.Breaker.Invariant.{IsValid}
use vxapigateway.Breaker.Transitions.{Attempt, after, after_failing, call_after_timeout}

-- A function that always fails and counts its runs, and one that succeeds.
abbrev failing : ℕ → Option ℕ × ℕ
failing runs = (some 7, runs + 1)

abbrev fine : ℕ → Option ℕ × ℕ
fine runs = (none, runs + 1)

abbrev fresh : CircuitBreaker
fresh = record {
  max_failures = 2;
  reset_timeout = 100;
  failures = 0;
  last_fail_time = 0;
  state = closed;
  trips = 0;
}

abbrev tripped : CircuitBreaker
tripped = record {
  max_failures = 2;
  reset_timeout = 100;
  failures = 2;
  last_fail_time = 50;
  state = open_;
  trips = 1;
}

abbrev two_failures : List (Attempt ℕ ℕ)
two_failures =
    record { now = 10; later = 20; fn = failing }
    ∷ record { now = 30; later = 50; fn = failing }
    ∷ []

fresh-IsValid : IsValid fresh
fresh-IsValid = ground arith

after_failing_example :
    ((after two_failures 0 fresh).1.failures ≡ 2) × ((after two_failures 0 fresh).1.state ≡ open_)
after_failing_example =
    after_failing two_failures 0 fresh fresh-IsValid refl ((λ w. (7, refl)), ((λ w. (7, refl)), tt))
      (omega arith)

call_after_timeout_example :
    (◌≡◌ {A = Option ℕ} (some 7) none
      → ((call 200 210 failing 0 tripped).2.state ≡ closed)
        × ((call 200 210 failing 0 tripped).2.failures ≡ 0))
    × ((e : ℕ)
        → ◌≡◌ {A = Option ℕ} (some 7) (some e)
        → ((call 200 210 failing 0 tripped).2.state ≡ half_open)
          × ((call 200 210 failing 0 tripped).2.failures ≡ 1))
call_after_timeout_example =
    call_after_timeout 200 210 failing 0 tripped refl (omega arith) (omega arith) (omega arith)
