-- ===== src/Dashboard/History.antt =====
-- The ring of the request history.
use vxapigateway.Prelude.{
  ℕ, zero, suc, ◌+◌, ◌-◌, ◌/◌, ◌%◌, ◌<◌, ◌≡◌, ◌≢◌, refl, sym, subst, ap, ◌∙◌, inl, inr, some,
  get_elem?, modify, Bool-cases, ◌==◌, get_elem?-modify_self, get_elem?-modify_ne, arith,
}
use mathlib.Core.Option
use vxapigateway.Prelude.Word.{half_modulus, add64}
use vxapigateway.Dashboard.{DashboardStats, new_dashboard_stats, record_request, repeat}

-- `n` requests.
unfoldable pub record_requests : ℕ → DashboardStats → DashboardStats
unfolding record_request
record_requests zero d = d
record_requests (suc n) d = record_request (record_requests n d)

-- The history of a dashboard that has seen `n` requests.
record IsSpread (n : ℕ) (d : DashboardStats) : Type 0 where
  counted : d.total_requests ≡ n
  next : d.hist_idx ≡ n
  slots : (i : ℕ) → i < 48 → get_elem? d.request_history i ≡ some ((n + 47 - i) / 48)

repeat-get_elem? : (c n i : ℕ) → i < n → get_elem? (repeat c n) i ≡ some c
repeat-get_elem? c zero i h = elim h [ ]
repeat-get_elem? c (suc n) zero h = refl
repeat-get_elem? c (suc n) (suc i) h = repeat-get_elem? c n i (omega arith)

-- The slot that a request goes to, and the others.
quotient-next : (n i : ℕ) → i < 48 → n % 48 ≡ i → (suc n + 47 - i) / 48 ≡ (n + 47 - i) / 48 + 1
quotient-next n i h e = omega arith

quotient-other : (n i : ℕ) → i < 48 → n % 48 ≢ i → (suc n + 47 - i) / 48 ≡ (n + 47 - i) / 48
quotient-other n i h e = omega arith

record_request-IsSpread :
    (n : ℕ) (d : DashboardStats)
    → n + 1 < half_modulus
    → IsSpread n d
    → IsSpread (suc n) (record_request d)
unfolding record_request
record_request-IsSpread n d small v = record {
  counted = omega (arith, v.counted);
  next = omega (arith, v.next);
  slots = λ i h. elim (Bool-cases (n % 48 == i)) [
    | inl e ↦
        let here : n % 48 ≡ i = ground arith in
        let at : d.hist_idx % 48 ≡ i = ap (λ k. k % 48) v.next ∙ here in
        let old = (n + 47 - i) / 48 in
        let fits : add64 old 1 ≡ old + 1 = omega arith in
        subst
          (λ k.
            get_elem? (modify d.request_history k (λ m. add64 m 1)) i
            ≡ some ((suc n + 47 - i) / 48))
          (sym at)
          (get_elem?-modify_self d.request_history i (λ m. add64 m 1)
            ∙ ap (Option.map (λ m. add64 m 1)) (v.slots i h)
            ∙ ap (λ m. some m) (fits ∙ sym (quotient-next n i h here)))
    | inr e ↦
        let elsewhere : n % 48 ≢ i = ground arith in
        get_elem?-modify_ne d.request_history (d.hist_idx % 48) i (λ m. add64 m 1)
          (λ at. elsewhere (ap (λ k. k % 48) (sym v.next) ∙ at))
        ∙ v.slots i h
        ∙ ap (λ m. some m) (sym (quotient-other n i h elsewhere))
  ];
}

record_requests-IsSpread :
    (n : ℕ) → n < half_modulus → IsSpread n (record_requests n new_dashboard_stats)
unfolding record_requests
record_requests-IsSpread zero h = record {
  counted = refl;
  next = refl;
  slots = λ i small. repeat-get_elem? 0 48 i small ∙ ap (λ m. some m) (omega arith);
}
record_requests-IsSpread (suc n) h =
    record_request-IsSpread n (record_requests n new_dashboard_stats) (omega arith)
      (record_requests-IsSpread n (omega arith))

-- After fewer than 2 ^ 63 requests the dashboard counts them all, and the history has spread them
-- evenly over its slots, one after the other, whenever they came: slot `i` holds `(n + 47 - i) / 48`.
pub record_requests_lem :
    (n i : ℕ)
    → n < half_modulus
    → i < 48
    → let d = record_requests n new_dashboard_stats in
      (d.total_requests ≡ n) × (get_elem? d.request_history i ≡ some ((n + 47 - i) / 48))
record_requests_lem n i h k = let v = record_requests-IsSpread n h in (v.counted, v.slots i k)
