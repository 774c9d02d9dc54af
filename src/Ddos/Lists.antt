-- ===== src/Ddos/Lists.antt =====
-- The permanent lists: what they promise under any sequence of operations.
use vxapigateway.Prelude.{ℕ, ◌≡◌, refl, true, false, List, [], ◌∷◌, arith}
use vxapigateway.Prelude.Bytes.{Bytes}
use vxapigateway.Prelude.BytesLaws.{beq_refl}
use vxapigateway.Ddos.{
  DdosProtection, Operation, whitelists, blacklists, checks, records, cleans, add_to_whitelist,
  add_to_blacklist, is_blocked, record_request, count_request, cleanup, step, run,
}

-- Operations only add to the lists.
step-whitelist :
    (o : Operation) (d : DdosProtection) (ip : Bytes)
    → d.whitelist ip ≡ true
    → (step o d).whitelist ip ≡ true
unfolding step add_to_whitelist add_to_blacklist is_blocked record_request count_request cleanup
step-whitelist (whitelists x) d ip h = ground arith
step-whitelist (blacklists x) d ip h = h
step-whitelist (checks now x) d ip h = ground arith
step-whitelist (records now x) d ip h = ground arith
step-whitelist (cleans now) d ip h = h

step-blacklist :
    (o : Operation) (d : DdosProtection) (ip : Bytes)
    → d.blacklist ip ≡ true
    → (step o d).blacklist ip ≡ true
unfolding step add_to_whitelist add_to_blacklist is_blocked record_request count_request cleanup
step-blacklist (whitelists x) d ip h = h
step-blacklist (blacklists x) d ip h = ground arith
step-blacklist (checks now x) d ip h = ground arith
step-blacklist (records now x) d ip h = ground arith
step-blacklist (cleans now) d ip h = h

pub run-whitelist :
    (os : List Operation) (d : DdosProtection) (ip : Bytes)
    → d.whitelist ip ≡ true
    → (run os d).whitelist ip ≡ true
unfolding run
run-whitelist [] d ip h = h
run-whitelist (o ∷ os) d ip h = run-whitelist os (step o d) ip (step-whitelist o d ip h)

run-blacklist :
    (os : List Operation) (d : DdosProtection) (ip : Bytes)
    → d.blacklist ip ≡ true
    → (run os d).blacklist ip ≡ true
unfolding run
run-blacklist [] d ip h = h
run-blacklist (o ∷ os) d ip h = run-blacklist os (step o d) ip (step-blacklist o d ip h)

-- Once an address is whitelisted it is never denied again: after any operations, at any time, it is
-- not blocked, its requests do not trip the protection, and neither answer changes anything.
pub whitelist_wins :
    (operations : List Operation) (d : DdosProtection) (ip : Bytes) (now : ℕ)
    → let e = run operations (add_to_whitelist ip d) in
      (is_blocked now ip e ≡ (false, e)) × (record_request now ip e ≡ (false, e))
unfolding is_blocked record_request
whitelist_wins operations d ip now =
    ground (arith, run-whitelist operations (add_to_whitelist ip d) ip (added d ip))
  where
    added : (d : DdosProtection) (ip : Bytes) → (add_to_whitelist ip d).whitelist ip ≡ true
    added d ip = unfold add_to_whitelist in rw (beq_refl ip) refl

-- Once an address is blacklisted it is blocked, after any operations and at any time, unless it
-- is on the whitelist.
pub blacklist_blocks :
    (operations : List Operation) (d : DdosProtection) (ip : Bytes) (now : ℕ)
    → (run operations (add_to_blacklist ip d)).whitelist ip ≡ false
    → is_blocked now ip (run operations (add_to_blacklist ip d))
      ≡ (true, run operations (add_to_blacklist ip d))
unfolding is_blocked
blacklist_blocks operations d ip now off =
    ground (arith, run-blacklist operations (add_to_blacklist ip d) ip (added d ip))
  where
    added : (d : DdosProtection) (ip : Bytes) → (add_to_blacklist ip d).blacklist ip ≡ true
    added d ip = unfold add_to_blacklist in rw (beq_refl ip) refl
