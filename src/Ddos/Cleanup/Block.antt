-- ===== src/Ddos/Cleanup/Block.antt =====
-- `IsBlocked` does not see the rounds of the clean-up.
use vxapigateway.Prelude.{
  ℕ, ◌≡◌, refl, sym, ap, ap₂, ◌∙◌, inl, inr, Bool, true, false, Option, none, some, ltb, arith,
  Bool-cases, Option-cases, if◌then◌else◌,
}
use vxapigateway.Prelude.Bytes.{Bytes, beq, update}
use vxapigateway.Prelude.BytesLaws.{beq_iff}
use vxapigateway.Ddos.{DdosProtection, is_blocked, keep_counter, keep_block}
use vxapigateway.Ddos.Cleanup.{Agrees, update-agrees}

-- Whether a block, as far as it has not run out, stands.
abbrev stands : ℕ → Option ℕ → Bool
stands t none = false
stands t (some b) = ltb t b

stands_of_keep_block :
    (t : ℕ) (b c : Option ℕ) → keep_block t b ≡ keep_block t c → stands t b ≡ stands t c
stands_of_keep_block t b c h = ground arith

-- A block that stands.
abbrev dropped : ℕ → Option ℕ → Option ℕ
dropped t none = none
dropped t (some b) = if ltb t b then some b else none

dropped_of_keep_block :
    (t : ℕ) (b c : Option ℕ) → keep_block t b ≡ keep_block t c → dropped t b ≡ dropped t c
dropped_of_keep_block t b c h = ground arith

module _ (t : ℕ) (ip : Bytes) where
  -- The answer of `IsBlocked` and the blocks that it leaves, by the lists.
  abbrev verdict : Bool → Bool → Option ℕ → Bool
  verdict w b block = if w then false else if b then true else stands t block

  abbrev left_blocks : Bool → Bool → (Bytes → Option ℕ) → Bytes → Option ℕ
  left_blocks w b blocked =
      if w then blocked else if b then blocked else update blocked ip (dropped t (blocked ip))

  is_blocked-verdict :
      (d : DdosProtection)
      → (is_blocked t ip d).0 ≡ verdict (d.whitelist ip) (d.blacklist ip) (d.blocked ip)
  unfolding is_blocked
  is_blocked-verdict d = ground arith

  update_same : (m : Bytes → Option ℕ) (j : Bytes) → m j ≡ update m ip (m ip) j
  update_same m j = elim (Bool-cases (beq ip j)) [
    | inl here ↦ rw here (ap m (sym ((beq_iff ip j).0 here)))
    | inr other ↦ rw other refl
  ]

  is_blocked-blocks :
      (d : DdosProtection) (j : Bytes)
      → (is_blocked t ip d).1.blocked j ≡ left_blocks (d.whitelist ip) (d.blacklist ip) d.blocked j
  unfolding is_blocked
  is_blocked-blocks d j = elim (Bool-cases (d.whitelist ip)) [
    | inl w ↦ rw (w, is_blocked) refl
    | inr w ↦ elim (Bool-cases (d.blacklist ip)) [
      | inl b ↦ rw (w, b, is_blocked) refl
      | inr b ↦ elim (Option-cases (d.blocked ip)) [
        | inl e ↦
            rw (w, b, e, is_blocked) (update_same d.blocked j ∙ ap (λ o. update d.blocked ip o j) e)
        | inr (x, e) ↦ elim (Bool-cases (ltb t x)) [
          | inl s ↦
              rw (w, b, e, s, is_blocked)
                (update_same d.blocked j ∙ ap (λ o. update d.blocked ip o j) e)
          | inr s ↦ rw (w, b, e, s, is_blocked) refl
        ]
      ]
    ]
  ]

  is_blocked-rest :
      (d : DdosProtection)
      → let e = (is_blocked t ip d).1 in
        (e.requests ≡ d.requests)
        × (e.whitelist ≡ d.whitelist)
        × (e.blacklist ≡ d.blacklist)
        × (e.threshold ≡ d.threshold)
        × (e.duration ≡ d.duration)
  unfolding is_blocked
  is_blocked-rest d = ground arith

  left_blocks-agree :
      (w b : Bool) (m n : Bytes → Option ℕ)
      → ((j : Bytes) → keep_block t (m j) ≡ keep_block t (n j))
      → (j : Bytes) → keep_block t (left_blocks w b m j) ≡ keep_block t (left_blocks w b n j)
  left_blocks-agree true b m n h j = h j
  left_blocks-agree false true m n h j = h j
  left_blocks-agree false false m n h j =
      update-agrees (keep_block t) m n ip _ _ h
        (ap (keep_block t) (dropped_of_keep_block t (m ip) (n ip) (h ip))) j

  pub is_blocked-Agrees :
      (d e : DdosProtection)
      → Agrees t d e
      → ((is_blocked t ip d).0 ≡ (is_blocked t ip e).0)
        × Agrees t (is_blocked t ip d).1 (is_blocked t ip e).1
  is_blocked-Agrees d e a =
      let (rd, wd, bd, td, dd) = is_blocked-rest d in
      let (re, we, be, te, de) = is_blocked-rest e in
      (
        is_blocked-verdict d
            ∙ (rw
                (
                  a.whitelists_agree ip,
                  a.blacklists_agree ip,
                  stands_of_keep_block t (d.blocked ip) (e.blocked ip) (a.blocks ip),
                )
                refl)
            ∙ sym (is_blocked-verdict e),
        record {
          whitelists_agree = λ j. ap (λ f. f j) wd ∙ a.whitelists_agree j ∙ ap (λ f. f j) (sym we);
          blacklists_agree = λ j. ap (λ f. f j) bd ∙ a.blacklists_agree j ∙ ap (λ f. f j) (sym be);
          same_threshold = td ∙ a.same_threshold ∙ sym te;
          same_duration = dd ∙ a.same_duration ∙ sym de;
          counters = λ j.
              ap (λ f. keep_counter t (f j)) rd
              ∙ a.counters j
              ∙ ap (λ f. keep_counter t (f j)) (sym re);
          blocks = λ j.
              ap (keep_block t) (is_blocked-blocks d j)
              ∙ ap₂ (λ w b. keep_block t (left_blocks w b d.blocked j)) (a.whitelists_agree ip)
                  (a.blacklists_agree ip)
              ∙ left_blocks-agree (e.whitelist ip) (e.blacklist ip) d.blocked e.blocked a.blocks j
              ∙ ap (keep_block t) (sym (is_blocked-blocks e j));
        },
      )
