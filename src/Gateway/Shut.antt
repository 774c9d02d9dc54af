-- ===== src/Gateway/Shut.antt =====
-- What the client is told while the breaker is shut.
use vxapigateway.Prelude.{
  ℕ, zero, suc, ◌+◌, ◌≡◌, refl, sym, ap, ap₂, subst, ◌⊎◌, ◌∙◌, Bool, false, inl, inr, [], ◌++◌,
  Option, none, some, arith, ◌==◌, if◌then◌else◌,
}
use vxapigateway.Prelude.Bytes.{Bytes, codes}
use vxapigateway.Backend.{record_failure}
use vxapigateway.Pool.{Pick, panics, nil, picked}
use vxapigateway.Router.{MatchedRoute}
use vxapigateway.Breaker.{rejected}
use vxapigateway.Breaker.Transitions.{IsShut, call-rejected_iff}
use vxapigateway.Recorder.{Writer, new_response_recorder, write_header, write}
use vxapigateway.Client.{Request}
use vxapigateway.Gateway.{Services, Surroundings, Attempt, Gateway, counted, crashed, http_error}
use vxapigateway.Gateway.Exchange.{
  Exchange, Trial, finished, broken, panicked, exhausted, on_backend, pool_peer, go_on, proxy,
  guarded, after_failure, after_verdict, try_attempts, max_retries, conclude,
}
use vxapigateway.Gateway.Serve.{ending_of, effective_timeout, begin, finish, run_attempts}

-- The error of the breaker is the last one, and the response, the request and the breaker are as
-- they were.
abbrev pub IsUnasked : Exchange → Trial → Type 0
IsUnasked x (finished y) = ⊥
IsUnasked x (broken y) = ⊥
IsUnasked x (panicked y) =
    (y.recorder ≡ x.recorder) × (y.request ≡ x.request) × (y.breaker ≡ x.breaker)
IsUnasked x (exhausted error y) =
    (error ≡ codes "circuit breaker is open")
    × (y.recorder ≡ x.recorder)
    × (y.request ≡ x.request)
    × (y.breaker ≡ x.breaker)

go_on-IsUnasked :
    (pick : Pick) (i : ℕ) (x y : Exchange) (continue : ℕ → Exchange → Trial)
    → ((j : ℕ) → IsUnasked x (continue j y))
    → (y.recorder ≡ x.recorder) × (y.request ≡ x.request) × (y.breaker ≡ x.breaker)
    → IsUnasked x (go_on pick i y continue)
unfolding go_on
go_on-IsUnasked panics i x y continue next h = h
go_on-IsUnasked nil i x y continue next h = next i
go_on-IsUnasked (picked j) i x y continue next h = next j

suc-zero : (n : ℕ) → (suc n == 0) ≡ false
suc-zero n = ground arith

module _ (first_byte : Bytes → ℕ) (writer : Writer) (ip : Bytes) (pool timeout : ℕ) where
  guarded-shut :
      (a : Attempt) (i : ℕ) (x : Exchange)
      → IsShut a.now x.breaker
      → guarded first_byte writer ip pool timeout a i x ≡ (rejected, x)
  unfolding guarded
  guarded-shut a i x shut =
      ap (λ c. (c.0, record c.1 { breaker = c.2 }))
        ((call-rejected_iff a.now a.later (proxy first_byte writer ip pool timeout a i) x
            x.breaker).1
          shut)

  try_attempts-shut :
      (attempts : ℕ → Attempt) (left n i : ℕ) (y : Exchange)
      → IsShut (attempts n).now y.breaker
      → try_attempts first_byte writer ip pool timeout attempts (suc left) n i y
        ≡ after_failure first_byte writer ip pool timeout left
            (attempts n)
            (codes "circuit breaker is open")
            i
            y
            (try_attempts first_byte writer ip pool timeout attempts left (n + 1))
  unfolding try_attempts after_verdict
  try_attempts-shut attempts left n i y shut =
      ap
        (λ t.
          after_verdict first_byte writer ip pool timeout t.0 left (attempts n) i t.1
            (try_attempts first_byte writer ip pool timeout attempts left (n + 1)))
        (guarded-shut (attempts n) i y shut)

  module _ (a : Attempt) (i : ℕ) (x y : Exchange) (continue : ℕ → Exchange → Trial)
      (fresh : x.recorder.committed ≡ false)
      (same : (y.recorder ≡ x.recorder) × (y.request ≡ x.request) × (y.breaker ≡ x.breaker)) where
    abbrev noted : Exchange
    noted = on_backend pool i (record_failure a.noted) y

    abbrev moved : Exchange
    moved = record noted { router = (pool_peer first_byte ip pool noted.router).1 }

    last-IsUnasked : IsUnasked x (
        after_failure first_byte writer ip pool timeout 0 a
          (codes "circuit breaker is open")
          i
          y
          continue)
    unfolding after_failure
    last-IsUnasked = ground (arith, fresh, same)

    next-IsUnasked :
        (left : ℕ)
        → ((j : ℕ) (z : Exchange)
            → (z.recorder ≡ x.recorder) × (z.request ≡ x.request) × (z.breaker ≡ x.breaker)
            → IsUnasked x (continue j z))
        → IsUnasked x (
            after_failure first_byte writer ip pool timeout
              (suc left)
              a
              (codes "circuit breaker is open")
              i
              y
              continue)
    unfolding after_failure
    next-IsUnasked left next =
        subst
          (λ (b : Bool × Bool). IsUnasked x (
            if b.0
            then broken noted
            else if b.1
            then exhausted (codes "circuit breaker is open") noted
            else go_on (pool_peer first_byte ip pool noted.router).0 i moved continue))
          (ap₂ (λ b c. (b, c)) (sym (ap (λ r. r.committed) same.0 ∙ fresh)) (sym (suc-zero left)))
          (go_on-IsUnasked (pool_peer first_byte ip pool noted.router).0 i x moved continue
            (λ j. next j moved same) same)

  -- While the breaker is shut, every attempt is rejected by it.
  try_attempts-IsUnasked :
      (attempts : ℕ → Attempt) (left n i : ℕ) (x y : Exchange)
      → ((k : ℕ) → IsShut (attempts k).now x.breaker)
      → x.recorder.committed ≡ false
      → (y.recorder ≡ x.recorder) × (y.request ≡ x.request) × (y.breaker ≡ x.breaker)
      → IsUnasked x (try_attempts first_byte writer ip pool timeout attempts (suc left) n i y)
  try_attempts-IsUnasked attempts zero n i x y shut fresh same =
      subst (IsUnasked x)
        (sym (
          try_attempts-shut attempts 0 n i y
            (subst (IsShut (attempts n).now) (sym same.2) (shut n))))
        (last-IsUnasked (attempts n) i x y _ fresh same)
  try_attempts-IsUnasked attempts (suc left) n i x y shut fresh same =
      subst (IsUnasked x)
        (sym (
          try_attempts-shut attempts (suc left) n i y
            (subst (IsShut (attempts n).now) (sym same.2) (shut n))))
        (next-IsUnasked (attempts n) i x y _ fresh same left
          (λ j z h. try_attempts-IsUnasked attempts left (n + 1) j x z shut fresh h))

-- The reply behind the loop, and the breaker.
conclude-IsUnasked :
    (w : Writer) (x : Exchange) (t : Trial)
    → x.recorder ≡ new_response_recorder
    → IsUnasked x t
    → ((conclude w t).0.breaker ≡ x.breaker)
      × ((((conclude w t).1 ≡ none) × ((conclude w t).0.recorder.sent ≡ []))
          ⊎ (((conclude w t).1 ≡ some 503)
              × ((conclude w t).0.recorder.sent
                  ≡ http_error 503
                      (codes "Service temporarily unavailable: circuit breaker is open"))))
unfolding conclude write write_header
conclude-IsUnasked w x (finished y) fresh away = elim away [ ]
conclude-IsUnasked w x (broken y) fresh away = elim away [ ]
conclude-IsUnasked w x (panicked y) fresh (same, asked, breaker) =
    (breaker, inl (refl, ap (λ r. r.sent) (same ∙ fresh)))
conclude-IsUnasked w x (exhausted error y) fresh (e, same, asked, breaker) = (
  breaker,
  inr (
    refl,
    ap₂
        (λ text rr.
          (write w (codes "Service temporarily unavailable: " ++ (text ++ codes "\n"))
            (write_header 503 rr)).1.sent)
        e (same ∙ fresh),
  ),
)

module _ (services : Services) (s : Surroundings) where
  -- While the breaker is shut at the time of every attempt, it stays as it is, and the client gets
  -- status 503 with the breaker's error and nothing of a backend, or, if the choice of another
  -- backend panics, nothing at all.
  pub run_attempts-shut :
      (m : MatchedRoute) (i : ℕ) (ip : Bytes) (c : Option Bytes) (r : Request)
      (g : Gateway services)
      → ((k : ℕ) → IsShut (s.attempts k).now g.breaker)
      → let out = run_attempts services s m i ip c r g in
        (out.0.breaker ≡ g.breaker)
        × (((out.1.ending ≡ crashed) × (out.1.sent ≡ []))
            ⊎ ((out.1.ending ≡ counted 503)
                × (out.1.sent
                    ≡ http_error 503
                        (codes "Service temporarily unavailable: circuit breaker is open"))))
  unfolding run_attempts finish
  run_attempts-shut m i ip c r g shut =
      let begun = begin services s m r g in
      let timeout = effective_timeout m.timeout g.config in
      let trial =
        try_attempts services.first_byte s.writer ip m.pool timeout s.attempts max_retries 0 i
          begun in
      let (kept, ends) = conclude-IsUnasked s.writer begun trial refl (
        try_attempts-IsUnasked services.first_byte s.writer ip m.pool timeout s.attempts 2 0 i begun
          begun shut refl (refl, refl, refl)) in
      (
        kept,
        elim ends [
          | inl (e, sent) ↦ inl (ap (ending_of services s) e, sent)
          | inr (e, sent) ↦ inr (ap (ending_of services s) e, sent)
        ],
      )
