-- ===== src/Gateway/Table.antt =====
-- Requests keep the router well-formed: they change counters and nothing else of the pools.
use vxapigateway.Prelude.{
  ℕ, zero, suc, ◌<◌, ◌≡◌, ◌≢◌, refl, sym, ap, ◌∙◌, subst, inl, inr, true, List, [], ◌∷◌, get_elem?,
  modify, length, length-modify, All, All-get_elem?, arith, Option-cases,
}
use vxapigateway.Prelude.Bytes.{Bytes}
use vxapigateway.Prelude.Word.{slt}
use vxapigateway.Backend.{Backend, inc_connections, dec_connections, record_failure}
use vxapigateway.Pool.{ServicePool, next_peer, update_backend}
use vxapigateway.Pool.Total.{next_peer-backends}
use vxapigateway.Upstream.Laws.{IsUsable, Distinct}
use vxapigateway.Router.{ServiceRouter}
use vxapigateway.Router.Invariant.{IsStocked, IsWellFormed}
use vxapigateway.Recorder.{Writer}
use vxapigateway.Gateway.Exchange.{update_pool, pool_peer, proxy}
use vxapigateway.Gateway.Loop.{IsKept}
use vxapigateway.Gateway.Retry.{guarded-keeps}

module _ {ℓ κ} {A : Type ℓ} (P : A → Type κ) where
  All-modify_one :
      (xs : List A) (i : ℕ) (f : A → A)
      → ((x : A) → P x → P (f x))
      → All P xs
      → All P (modify xs i f)
  All-modify_one [] i f keep h = tt
  All-modify_one (x ∷ xs) zero f keep (h, hs) = (keep x h, hs)
  All-modify_one (x ∷ xs) (suc i) f keep (h, hs) = (h, All-modify_one xs i f keep hs)

module _ (f : Backend → Backend)
    (same : (b : Backend) → ((f b).url ≡ b.url) × ((f b).weight ≡ b.weight)) where
  Distinct-modify : (bs : List Backend) (i : ℕ) → Distinct bs → Distinct (modify bs i f)
  Distinct-modify [] i h = tt
  Distinct-modify (b ∷ bs) zero (h, hs) =
      (subst (λ u. All (λ c. c.url.text ≢ u.text) bs) (sym (same b).0) h, hs)
  Distinct-modify (b ∷ bs) (suc i) (h, hs) = (
    All-modify_one (λ c. c.url.text ≢ b.url.text) bs i f
        (λ c other e. other (ap (λ u. u.text) (sym (same c).0) ∙ e)) h,
    Distinct-modify bs i hs,
  )

  update_backend-IsStocked :
      (i : ℕ) (p : ServicePool) → IsStocked p → IsStocked (update_backend i f p)
  update_backend-IsStocked i p v = record {
    some_backend = omega (arith, length-modify p.backends i f, v.some_backend);
    usable =
        All-modify_one (λ b. IsUsable b.url × (slt 0 b.weight ≡ true)) p.backends i f
          (λ b h. (subst IsUsable (sym (same b).0) h.0, ap (slt 0) (same b).1 ∙ h.1)) v.usable;
    distinct = Distinct-modify p.backends i v.distinct;
  }

  update_pool-IsWellFormed :
      (pool i : ℕ) (sr : ServiceRouter)
      → IsWellFormed sr
      → IsWellFormed (update_pool pool (update_backend i f) sr)
  update_pool-IsWellFormed pool i sr v = record {
    ordered = v.ordered;
    linked = rw (length-modify sr.pools pool (update_backend i f)) v.linked;
    stocked =
        All-modify_one IsStocked sr.pools pool (update_backend i f) (update_backend-IsStocked i)
          v.stocked;
  }

next_peer-IsStocked :
    (first_byte : Bytes → ℕ) (p : ServicePool) (ip : Bytes)
    → IsStocked p
    → IsStocked (next_peer first_byte p ip).1
next_peer-IsStocked first_byte p ip v =
    let same = sym (next_peer-backends first_byte p ip) in
    record {
      some_backend = subst (λ bs. 0 < length bs) same v.some_backend;
      usable = subst (All (λ b. IsUsable b.url × (slt 0 b.weight ≡ true))) same v.usable;
      distinct = subst Distinct same v.distinct;
    }

pub pool_peer-IsWellFormed :
    (first_byte : Bytes → ℕ) (ip : Bytes) (pool : ℕ) (sr : ServiceRouter)
    → IsWellFormed sr
    → IsWellFormed (pool_peer first_byte ip pool sr).1
unfolding pool_peer
pool_peer-IsWellFormed first_byte ip pool sr v = elim (Option-cases (get_elem? sr.pools pool)) [
  | inl e ↦ rw (e, pool_peer) v
  | inr (p, e) ↦
      let next = (next_peer first_byte p ip).1 in
      let stocked =
        next_peer-IsStocked first_byte p ip (All-get_elem? IsStocked sr.pools pool p v.stocked e) in
      rw (e, pool_peer)
        (record {
          ordered = v.ordered;
          linked = rw (length-modify sr.pools pool (λ _. next)) v.linked;
          stocked = All-modify_one IsStocked sr.pools pool (λ _. next) (λ _ _. stocked) v.stocked;
        })
]

inc_connections-same :
    (b : Backend) → ((inc_connections b).url ≡ b.url) × ((inc_connections b).weight ≡ b.weight)
unfolding inc_connections
inc_connections-same b = (refl, refl)

dec_connections-same :
    (b : Backend) → ((dec_connections b).url ≡ b.url) × ((dec_connections b).weight ≡ b.weight)
unfolding dec_connections
dec_connections-same b = (refl, refl)

record_failure-same :
    (now : ℕ) (b : Backend)
    → ((record_failure now b).url ≡ b.url) × ((record_failure now b).weight ≡ b.weight)
unfolding record_failure
record_failure-same now b = (refl, refl)

module _ (first_byte : Bytes → ℕ) (writer : Writer) (ip : Bytes) (pool timeout : ℕ) where
  pub router-IsKept : IsKept first_byte writer ip pool timeout (λ x. IsWellFormed x.router)
  unfolding proxy
  router-IsKept = record {
    by_call = λ a i x.
        guarded-keeps first_byte writer ip pool timeout (λ y. IsWellFormed y.router) (λ y cb h. h) a
          i x
          (λ h.
            update_pool-IsWellFormed dec_connections dec_connections-same pool i _
              (update_pool-IsWellFormed inc_connections inc_connections-same pool i x.router h));
    by_failure = λ now i x h.
        update_pool-IsWellFormed (record_failure now) (record_failure-same now) pool i x.router h;
    by_peer = λ x h. pool_peer-IsWellFormed first_byte ip pool x.router h;
  }
