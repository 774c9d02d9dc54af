-- ===== src/Server/Steps.antt =====
-- The states that the server passes through. A request, a round of a clean-up and a round of health
-- checks are single steps.
use vxapigateway.Prelude.{ℕ, suc}
use vxapigateway.Backend.{Network}
use vxapigateway.Ddos.{cleanup}
use vxapigateway.Limiter.{evict}
use vxapigateway.Router.{health_check_all}
use vxapigateway.Client.{Request}
use vxapigateway.Gateway.{Services, Gateway}
use vxapigateway.Server.{Visit, serve}

module _ (services : Services) where
  -- A state that follows another, with the number of requests between them.
  pub data Steps (g : Gateway services) : ℕ → Gateway services → Type 0 where
    here : Steps g 0 g
    visited :
        {n : ℕ} {h : Gateway services} (v : Visit) (r : Request)
        → Steps g n h
        → Steps g (suc n) (serve services v r h).gateway
    checked :
        {n : ℕ} {h : Gateway services} (net : Network)
        → Steps g n h
        → Steps g n (record h { router = health_check_all net h.router })
    cleaned :
        {n : ℕ} {h : Gateway services} (now : ℕ)
        → Steps g n h
        → Steps g n (record h { ddos = cleanup now h.ddos })
    evicted :
        {n : ℕ} {h : Gateway services} (now : ℕ)
        → Steps g n h
        → Steps g n (record h { rate_limiter = evict services.limiters now h.rate_limiter })
