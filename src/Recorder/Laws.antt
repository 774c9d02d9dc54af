-- ===== src/Recorder/Laws.antt =====
-- One WriteHeader per recorder, and what `committed` says about it.
use vxapigateway.Prelude.{ℕ, suc, ◌≤◌, ◌≡◌, ◌≢◌, refl, sym, ◌∙◌, true, false, List, [], ◌∷◌, arith}
use vxapigateway.Recorder.{
  ClientEvent, header, body, flushed, hijacked, Writer, ResponseRecorder, new_response_recorder,
  Operation, writes_header, writes, flushes, hijacks, apply, apply_all, observed_status,
}

-- The calls of WriteHeader among the calls of the client's writer.
abbrev pub headers : List ClientEvent → ℕ
headers [] = 0
headers (header code ∷ es) = suc (headers es)
headers (body b ∷ es) = headers es
headers (flushed ∷ es) = headers es
headers (hijacked ∷ es) = headers es

-- Nothing but flushes: no status and no byte has been passed on, and the connection is ours.
abbrev pub IsSilent : List ClientEvent → Type 0
IsSilent [] = Unit {0}
IsSilent (header code ∷ es) = ⊥
IsSilent (body b ∷ es) = ⊥
IsSilent (flushed ∷ es) = IsSilent es
IsSilent (hijacked ∷ es) = ⊥

pub record IsSound (rr : ResponseRecorder) : Type 0 where
  pub silent : rr.committed ≡ false → IsSilent rr.sent × (rr.status ≡ 0)
  pub single : headers rr.sent ≤ 1
  pub unsent : rr.committed ≡ false → headers rr.sent ≡ 0

pub new-IsSound : IsSound new_response_recorder
new-IsSound = record { silent = λ _. (tt, refl); single = omega arith; unsent = λ _. refl }

module _ (w : Writer) where
  apply-IsSound : (o : Operation) (rr : ResponseRecorder) → IsSound rr → IsSound (apply w o rr)
  unfolding apply
  apply-IsSound (writes_header code) rr v = ground arith
  apply-IsSound (writes b) rr v = ground arith
  apply-IsSound flushes rr v = ground arith
  apply-IsSound hijacks rr v = ground arith

  -- Whatever a handler does with a sound recorder, it passes on one WriteHeader at most, and as long as
  -- the recorder is not committed nothing but flushes: no WriteHeader, no Write and no Hijack.
  pub apply_all-IsSound :
      (os : List Operation) (rr : ResponseRecorder) → IsSound rr → IsSound (apply_all w os rr)
  unfolding apply_all
  apply_all-IsSound [] rr v = v
  apply_all-IsSound (o ∷ os) rr v = apply_all-IsSound os (apply w o rr) (apply-IsSound o rr v)

  apply-status :
      (o : Operation) (rr : ResponseRecorder)
      → rr.committed ≡ true
      → rr.status ≢ 0
      → ((apply w o rr).committed ≡ true) × ((apply w o rr).status ≡ rr.status)
  unfolding apply
  apply-status (writes_header code) rr h k = ground arith
  apply-status (writes b) rr h k = ground arith
  apply-status flushes rr h k = ground arith
  apply-status hijacks rr h k = ground arith

  -- The first status wins: once a recorder is committed with a status, nothing changes the status
  -- that it reports, and it stays committed.
  pub apply_all-observed_status :
      (os : List Operation) (rr : ResponseRecorder)
      → rr.committed ≡ true
      → rr.status ≢ 0
      → ((apply_all w os rr).committed ≡ true) × (observed_status (apply_all w os rr) ≡ rr.status)
  unfolding apply_all observed_status
  apply_all-observed_status [] rr h k = ground arith
  apply_all-observed_status (o ∷ os) rr h k =
      let (committed, same) = apply-status o rr h k in
      let (later, status) =
        apply_all-observed_status os (apply w o rr) committed (λ e. k (sym same ∙ e)) in
      (later, status ∙ same)
