-- ===== src/Ddos/Window.antt =====
-- The request window: when an address is blocked, and for how long.
use vxapigateway.Prelude.{
  ℕ, ◌+◌, ◌≤◌, ◌<◌, ◌≡◌, true, false, ◌||◌, List, [], ◌∷◌, arith, ltb, ◌∙◌, none, some, All, length,
  subst, ap₂,
}
use vxapigateway.Prelude.Bytes.{Bytes}
use vxapigateway.Prelude.BytesLaws.{beq_refl}
use vxapigateway.Prelude.Word.{half_modulus, add_duration}
use vxapigateway.Ddos.{DdosProtection, minute, is_blocked, record_request, count_request}

-- The state after requests of one address at the given times.
unfoldable pub after_requests : Bytes → List ℕ → DdosProtection → DdosProtection
after_requests ip [] d = d
after_requests ip (t ∷ times) d = after_requests ip times (record_request t ip d).1

-- An address is in a window that began at `t0`, with `n` requests so far.
abbrev pub InWindow : Bytes → ℕ → ℕ → DdosProtection → Type 0
InWindow ip t0 n d =
    (d.whitelist ip ≡ false) × (d.requests ip ≡ some (record { count = n; first_seen = t0 }))

record_request-InWindow :
    (t t0 n : ℕ) (ip : Bytes) (d : DdosProtection)
    → InWindow ip t0 n d
    → t ≤ t0 + minute
    → n + 1 < half_modulus
    → d.threshold < half_modulus
    → ((record_request t ip d).0 ≡ ltb d.threshold (n + 1))
      × InWindow ip t0 (n + 1) (record_request t ip d).1
      × ((record_request t ip d).1.threshold ≡ d.threshold)
unfolding record_request count_request
record_request-InWindow t t0 n ip d (off, has) soon fits small = ground (arith, beq_refl ip)

after_requests-InWindow :
    (times : List ℕ) (t0 n : ℕ) (ip : Bytes) (d : DdosProtection)
    → InWindow ip t0 n d
    → All (λ t. t ≤ t0 + minute) times
    → n + length times < half_modulus
    → d.threshold < half_modulus
    → InWindow ip t0 (n + length times) (after_requests ip times d)
      × ((after_requests ip times d).threshold ≡ d.threshold)
unfolding after_requests
after_requests-InWindow [] t0 n ip d w soon fits small = ground arith
after_requests-InWindow (t ∷ times) t0 n ip d w (now, soon) fits small =
    let (_, next, same) = record_request-InWindow t t0 n ip d w now (omega arith) small in
    let (later, same') =
      after_requests-InWindow times t0 (n + 1) ip (record_request t ip d).1 next soon (omega arith)
        (rw same small) in
    let sum : n + 1 + length times ≡ n + length (t ∷ times) = omega arith in
    (
      subst (λ k. InWindow ip t0 k (after_requests ip times (record_request t ip d).1)) sum later,
      same' ∙ same,
    )

first_request :
    (t0 : ℕ) (ip : Bytes) (d : DdosProtection)
    → d.whitelist ip ≡ false
    → d.requests ip ≡ none
    → InWindow ip t0 1 (record_request t0 ip d).1
      × ((record_request t0 ip d).1.threshold ≡ d.threshold)
unfolding record_request
first_request t0 ip d off fresh = ground (arith, beq_refl ip)

-- The requests of an address that is not whitelisted and has no counter, in the minute after its
-- first one, with their number and the threshold in range of int: the first one passes, and the
-- request number `k` is denied exactly when `k` is above the threshold.
pub record_request-threshold :
    (t0 t : ℕ) (times : List ℕ) (ip : Bytes) (d : DdosProtection)
    → d.whitelist ip ≡ false
    → d.requests ip ≡ none
    → All (λ s. s ≤ t0 + minute) times
    → t ≤ t0 + minute
    → length times + 2 < half_modulus
    → d.threshold < half_modulus
    → ((record_request t0 ip d).0 ≡ false)
      × ((record_request t ip (after_requests ip (t0 ∷ times) d)).0
          ≡ ltb d.threshold (length times + 2))
unfolding after_requests
record_request-threshold t0 t times ip d off fresh soon now fits small =
    let (w, same) = first_request t0 ip d off fresh in
    let (w', same') =
      after_requests-InWindow times t0 1 ip (record_request t0 ip d).1 w soon (omega arith)
        (rw same small) in
    let e = after_requests ip times (record_request t0 ip d).1 in
    let (denied, _, _) =
      record_request-InWindow t t0 (1 + length times) ip e w' now (omega arith)
        (rw (same' ∙ same) small) in
    (first_passes t0 ip d off fresh, denied ∙ ap₂ ltb (same' ∙ same) (omega arith))
  where
    first_passes :
        (t0 : ℕ) (ip : Bytes) (d : DdosProtection)
        → d.whitelist ip ≡ false
        → d.requests ip ≡ none
        → (record_request t0 ip d).0 ≡ false
    first_passes t0 ip d off fresh = unfold record_request in ground arith

-- An address that trips the protection is blocked for the configured duration from then on, and no
-- longer, unless it is blacklisted. A negative duration lies in the past and blocks nothing.
pub record_request-blocks :
    (now t : ℕ) (ip : Bytes) (d : DdosProtection)
    → (record_request now ip d).0 ≡ true
    → (is_blocked t ip (record_request now ip d).1).0
      ≡ (d.blacklist ip || ltb t (add_duration now d.duration))
unfolding record_request count_request is_blocked
record_request-blocks now t ip d tripped = ground (arith, beq_refl ip)
