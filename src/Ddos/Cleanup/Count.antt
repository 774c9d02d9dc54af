-- ===== src/Ddos/Cleanup/Count.antt =====
-- `RecordRequest` does not see the rounds of the clean-up, nor does any sequence of operations.
use vxapigateway.Prelude.{
  ℕ, ◌+◌, ◌-◌, ◌≡◌, refl, ap, ap₂, subst, inl, inr, Bool, true, false, List, [], ◌∷◌, Option, none,
  some, ltb, Bool-cases, Option-cases, if◌then◌else◌,
}
use vxapigateway.Prelude.Bytes.{Bytes, update}
use vxapigateway.Prelude.Word.{add64, slt, add_duration}
use vxapigateway.Ddos.{
  RequestCounter, DdosProtection, Operation, whitelists, blacklists, checks, records, cleans,
  minute, add_to_whitelist, add_to_blacklist, set_counter, count_request, record_request,
  keep_counter, keep_block, cleanup, step,
}
use vxapigateway.Ddos.Cleanup.Block.{is_blocked-Agrees}
use vxapigateway.Ddos.Cleanup.{
  Agrees, Agrees-later, cleanup-Agrees, update-agrees, answers, without_cleans, IsTimely,
}

module _ (t : ℕ) (ip : Bytes) where
  -- `RecordRequest`, by the counter that has not run out.
  abbrev counted : Option RequestCounter → DdosProtection → Bool × DdosProtection
  counted none d = (false, set_counter ip 1 t d)
  counted (some c) d =
      let count = add64 c.count 1 in
      let next = set_counter ip count c.first_seen d in
      if slt d.threshold count
      then (
        true,
        record next {
          blocked = update d.blocked ip (some (add_duration t d.duration));
          blocked_total = d.blocked_total + 1;
        },
      )
      else (false, next)

  record_request-counted :
      (d : DdosProtection)
      → record_request t ip d
        ≡ (if d.whitelist ip then (false, d) else counted (keep_counter t (d.requests ip)) d)
  unfolding record_request count_request
  record_request-counted d = elim (Option-cases (d.requests ip)) [
    | inl e ↦ rw (e, record_request) refl
    | inr (c, e) ↦ elim (Bool-cases (ltb minute (t - c.first_seen))) [
      | inl old ↦ rw (e, old, record_request, count_request) refl
      | inr new ↦ rw (e, new, record_request, count_request) refl
    ]
  ]

  abbrev Agreeing : Bool × DdosProtection → Bool × DdosProtection → Type 0
  Agreeing x y = (x.0 ≡ y.0) × Agrees t x.1 y.1

  set_counter-Agrees :
      (n first : ℕ) (d e : DdosProtection)
      → Agrees t d e
      → Agrees t (set_counter ip n first d) (set_counter ip n first e)
  set_counter-Agrees n first d e a = record {
    whitelists_agree = a.whitelists_agree;
    blacklists_agree = a.blacklists_agree;
    same_threshold = a.same_threshold;
    same_duration = a.same_duration;
    counters = update-agrees (keep_counter t) d.requests e.requests ip _ _ a.counters refl;
    blocks = a.blocks;
  }

  if-Agreeing :
      (b : Bool) (x x' y y' : Bool × DdosProtection)
      → Agreeing x x'
      → Agreeing y y'
      → Agreeing (if b then x else y) (if b then x' else y')
  if-Agreeing true x x' y y' h k = h
  if-Agreeing false x x' y y' h k = k

  -- The block of an address over the threshold.
  abbrev tripped : ℕ → ℕ → DdosProtection → DdosProtection
  tripped n first d = record (set_counter ip n first d) {
    blocked = update d.blocked ip (some (add_duration t d.duration));
    blocked_total = d.blocked_total + 1;
  }

  tripped-Agrees :
      (n first : ℕ) (d e : DdosProtection)
      → Agrees t d e
      → Agrees t (tripped n first d) (tripped n first e)
  tripped-Agrees n first d e a = record {
    whitelists_agree = a.whitelists_agree;
    blacklists_agree = a.blacklists_agree;
    same_threshold = a.same_threshold;
    same_duration = a.same_duration;
    counters = (set_counter-Agrees n first d e a).counters;
    blocks =
        update-agrees (keep_block t) d.blocked e.blocked ip _ _ a.blocks
          (ap (λ x. keep_block t (some (add_duration t x))) a.same_duration);
  }

  counted-Agreeing :
      (c : Option RequestCounter) (d e : DdosProtection)
      → Agrees t d e
      → Agreeing (counted c d) (counted c e)
  counted-Agreeing none d e a = (refl, set_counter-Agrees 1 t d e a)
  counted-Agreeing (some c) d e a =
      let n = add64 c.count 1 in
      let over : Bool → DdosProtection → Bool × DdosProtection = λ b p.
        if b then (true, tripped n c.first_seen p) else (false, set_counter ip n c.first_seen p) in
      let same : slt d.threshold n ≡ slt e.threshold n = ap (λ x. slt x n) a.same_threshold in
      subst (λ b. Agreeing (over (slt d.threshold n) d) (over b e)) same
        (if-Agreeing (slt d.threshold n) _ _ _ _ (refl, tripped-Agrees n c.first_seen d e a)
          (refl, set_counter-Agrees n c.first_seen d e a))

  record_request-Agrees :
      (d e : DdosProtection)
      → Agrees t d e
      → Agreeing (record_request t ip d) (record_request t ip e)
  record_request-Agrees d e a =
      rw (record_request-counted d, record_request-counted e, a.whitelists_agree ip, a.counters ip)
        (if-Agreeing (e.whitelist ip) _ _ _ _ (refl, a)
          (counted-Agreeing (keep_counter t (e.requests ip)) d e a))

whitelist-Agrees :
    (now : ℕ) (ip : Bytes) (d e : DdosProtection)
    → Agrees now d e
    → Agrees now (add_to_whitelist ip d) (add_to_whitelist ip e)
unfolding add_to_whitelist
whitelist-Agrees now ip d e a = record {
  whitelists_agree =
      update-agrees (λ b. b) d.whitelist e.whitelist ip true true a.whitelists_agree refl;
  blacklists_agree = a.blacklists_agree;
  same_threshold = a.same_threshold;
  same_duration = a.same_duration;
  counters = a.counters;
  blocks = a.blocks;
}

blacklist-Agrees :
    (now : ℕ) (ip : Bytes) (d e : DdosProtection)
    → Agrees now d e
    → Agrees now (add_to_blacklist ip d) (add_to_blacklist ip e)
unfolding add_to_blacklist
blacklist-Agrees now ip d e a = record {
  whitelists_agree = a.whitelists_agree;
  blacklists_agree =
      update-agrees (λ b. b) d.blacklist e.blacklist ip true true a.blacklists_agree refl;
  same_threshold = a.same_threshold;
  same_duration = a.same_duration;
  counters = a.counters;
  blocks = a.blocks;
}

answers-agree :
    (operations : List Operation) (now : ℕ) (d e : DdosProtection)
    → IsTimely now operations
    → Agrees now d e
    → answers operations d ≡ answers (without_cleans operations) e
unfolding answers step
answers-agree [] now d e timely a = refl
answers-agree (whitelists ip ∷ operations) now d e timely a =
    answers-agree operations now _ _ timely (whitelist-Agrees now ip d e a)
answers-agree (blacklists ip ∷ operations) now d e timely a =
    answers-agree operations now _ _ timely (blacklist-Agrees now ip d e a)
answers-agree (checks t ip ∷ operations) now d e (le, timely) a =
    let (same, next) = is_blocked-Agrees t ip d e (Agrees-later now t d e le a) in
    ap₂ (λ x xs. x ∷ xs) same (answers-agree operations t _ _ timely next)
answers-agree (records t ip ∷ operations) now d e (le, timely) a =
    let (same, next) = record_request-Agrees t ip d e (Agrees-later now t d e le a) in
    ap₂ (λ x xs. x ∷ xs) same (answers-agree operations t _ _ timely next)
answers-agree (cleans t ∷ operations) now d e (le, timely) a =
    answers-agree operations t (cleanup t d) e timely (cleanup-Agrees now t d e le a)

-- However the rounds of the clean-up fall between the other operations, `IsBlocked` and
-- `RecordRequest` give the answers that they give without a clean-up, as long as the clock does not
-- go back.
pub answers-without_cleans :
    (operations : List Operation) (now : ℕ) (d : DdosProtection)
    → IsTimely now operations
    → answers operations d ≡ answers (without_cleans operations) d
answers-without_cleans operations now d timely = answers-agree operations now d d timely (record {
  whitelists_agree = λ ip. refl;
  blacklists_agree = λ ip. refl;
  same_threshold = refl;
  same_duration = refl;
  counters = λ ip. refl;
  blocks = λ ip. refl;
})
