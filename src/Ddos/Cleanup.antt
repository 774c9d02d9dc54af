-- ===== src/Ddos/Cleanup.antt =====
-- The clean-up goroutine is not observable: it drops only what has run out. Protections that differ in
-- that.
pub mod Block
pub mod Count
use vxapigateway.Prelude.{
  ℕ, ◌+◌, ◌-◌, ◌<◌, ◌≤◌, ◌≡◌, refl, sym, ap, ap₂, ◌∙◌, subst, inl, inr, Bool, true, false, List, [],
  ◌∷◌, Option, none, some, ltb, arith, Bool-cases, Option-cases, if◌then◌else◌,
}
use vxapigateway.Prelude.Bytes.{Bytes, beq, update}
use vxapigateway.Prelude.BytesLaws.{beq_iff}
use vxapigateway.Prelude.Word.{add64, slt}
use vxapigateway.Ddos.{
  RequestCounter, DdosProtection, Operation, whitelists, blacklists, checks, records, cleans,
  minute, add_to_whitelist, add_to_blacklist, is_blocked, set_counter, count_request,
  record_request, keep_counter, keep_block, cleanup, step,
}

-- The answers of the operations that have one, in order.
unfoldable pub answers : List Operation → DdosProtection → List Bool
unfolding step is_blocked record_request
answers [] d = []
answers (whitelists ip ∷ operations) d = answers operations (step (whitelists ip) d)
answers (blacklists ip ∷ operations) d = answers operations (step (blacklists ip) d)
answers (checks now ip ∷ operations) d =
    (is_blocked now ip d).0 ∷ answers operations (step (checks now ip) d)
answers (records now ip ∷ operations) d =
    (record_request now ip d).0 ∷ answers operations (step (records now ip) d)
answers (cleans now ∷ operations) d = answers operations (step (cleans now) d)

-- The operations without the rounds of the clean-up.
abbrev pub without_cleans : List Operation → List Operation
without_cleans [] = []
without_cleans (cleans now ∷ operations) = without_cleans operations
without_cleans (whitelists ip ∷ operations) = whitelists ip ∷ without_cleans operations
without_cleans (blacklists ip ∷ operations) = blacklists ip ∷ without_cleans operations
without_cleans (checks now ip ∷ operations) = checks now ip ∷ without_cleans operations
without_cleans (records now ip ∷ operations) = records now ip ∷ without_cleans operations

-- The clock does not go back, from `now` on.
abbrev pub IsTimely : ℕ → List Operation → Type 0
IsTimely now [] = Unit {0}
IsTimely now (whitelists ip ∷ operations) = IsTimely now operations
IsTimely now (blacklists ip ∷ operations) = IsTimely now operations
IsTimely now (checks t ip ∷ operations) = (now ≤ t) × IsTimely t operations
IsTimely now (records t ip ∷ operations) = (now ≤ t) × IsTimely t operations
IsTimely now (cleans t ∷ operations) = (now ≤ t) × IsTimely t operations

-- Two protections that differ only in what has run out by `now`.
pub record Agrees (now : ℕ) (d e : DdosProtection) : Type 0 where
  pub whitelists_agree : (ip : Bytes) → d.whitelist ip ≡ e.whitelist ip
  pub blacklists_agree : (ip : Bytes) → d.blacklist ip ≡ e.blacklist ip
  pub same_threshold : d.threshold ≡ e.threshold
  pub same_duration : d.duration ≡ e.duration
  pub counters : (ip : Bytes) → keep_counter now (d.requests ip) ≡ keep_counter now (e.requests ip)
  pub blocks : (ip : Bytes) → keep_block now (d.blocked ip) ≡ keep_block now (e.blocked ip)

pub keep_counter-later :
    (now t : ℕ) (c : Option RequestCounter)
    → now ≤ t
    → keep_counter t (keep_counter now c) ≡ keep_counter t c
keep_counter-later now t none h = refl
keep_counter-later now t (some c) h = ground arith

pub keep_block-later :
    (now t : ℕ) (b : Option ℕ) → now ≤ t → keep_block t (keep_block now b) ≡ keep_block t b
keep_block-later now t none h = refl
keep_block-later now t (some b) h = ground arith

pub Agrees-later : (now t : ℕ) (d e : DdosProtection) → now ≤ t → Agrees now d e → Agrees t d e
Agrees-later now t d e h a = record {
  whitelists_agree = a.whitelists_agree;
  blacklists_agree = a.blacklists_agree;
  same_threshold = a.same_threshold;
  same_duration = a.same_duration;
  counters = λ ip.
      sym (keep_counter-later now t (d.requests ip) h)
      ∙ ap (keep_counter t) (a.counters ip)
      ∙ keep_counter-later now t (e.requests ip) h;
  blocks = λ ip.
      sym (keep_block-later now t (d.blocked ip) h)
      ∙ ap (keep_block t) (a.blocks ip)
      ∙ keep_block-later now t (e.blocked ip) h;
}

pub cleanup-Agrees :
    (now t : ℕ) (d e : DdosProtection) → now ≤ t → Agrees now d e → Agrees t (cleanup t d) e
unfolding cleanup
cleanup-Agrees now t d e h a =
    let later = Agrees-later now t d e h a in
    record {
      whitelists_agree = later.whitelists_agree;
      blacklists_agree = later.blacklists_agree;
      same_threshold = later.same_threshold;
      same_duration = later.same_duration;
      counters = λ ip. keep_counter-later t t (d.requests ip) (omega arith) ∙ later.counters ip;
      blocks = λ ip. keep_block-later t t (d.blocked ip) (omega arith) ∙ later.blocks ip;
    }

-- An entry of the same value in two maps that agree.
pub update-agrees {ℓ} :
    {V : Type ℓ} (keep : V → V) (m n : Bytes → V) (k : Bytes) (v w : V)
    → ((j : Bytes) → keep (m j) ≡ keep (n j))
    → keep v ≡ keep w
    → (j : Bytes) → keep (update m k v j) ≡ keep (update n k w j)
update-agrees keep m n k v w h e j = elim (Bool-cases (beq k j)) [
  | inl here ↦ rw here e
  | inr other ↦ rw other (h j)
]
