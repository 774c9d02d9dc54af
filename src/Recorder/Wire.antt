-- ===== src/Recorder/Wire.antt =====
-- What the client gets: net/http's part behind the calls that the recorder passes on.
use vxapigateway.Prelude.{
  ℕ, ◌≤◌, ◌≡◌, ◌≢◌, ◌⊎◌, inl, inr, refl, true, false, List, [], ◌∷◌, arith, Bool-cases,
}
use vxapigateway.Recorder.Laws.{apply_all-observed_status}
use vxapigateway.Recorder.{
  ClientEvent, header, body, flushed, hijacked, Writer, ResponseRecorder, new_response_recorder,
  Operation, writes_header, writes, flushes, hijacks, write_header, write, flush, hijack, apply,
  apply_all, observed_status,
}

-- What has gone out on the connection: nothing, a status line, or whatever the caller of Hijack writes.
pub data Wire : Type 0 where
  nothing taken : Wire
  begun : ℕ → Wire

-- The documentation of net/http, for final statuses: the first WriteHeader sends its status, and the
-- first Write or Flush in front of it sends 200.
abbrev pub after_event : ClientEvent → Wire → Wire
after_event e (begun status) = begun status
after_event e taken = taken
after_event (header code) nothing = begun code
after_event (body b) nothing = begun 200
after_event flushed nothing = begun 200
after_event hijacked nothing = taken

-- The newest call is the first of the list.
abbrev pub wire : List ClientEvent → Wire
wire [] = nothing
wire (e ∷ es) = after_event e (wire es)

-- What has gone out once the handler has returned: net/http then sends 200 if nothing has.
abbrev pub on_return : Wire → Wire
on_return nothing = begun 200
on_return (begun status) = begun status
on_return taken = taken

-- No flush comes before the status, a part of the body or a hijacked connection.
abbrev pub IsPatient : List Operation → Type 0
IsPatient [] = Unit {0}
IsPatient (writes_header code ∷ os) = Unit {0}
IsPatient (writes b ∷ os) = Unit {0}
IsPatient (flushes ∷ os) = ⊥
IsPatient (hijacks ∷ os) = IsPatient os

-- The statuses are final ones: net/http sends an informational one in front of another status.
abbrev pub IsFinal : List Operation → Type 0
IsFinal [] = Unit {0}
IsFinal (writes_header code ∷ os) = (200 ≤ code) × IsFinal os
IsFinal (writes b ∷ os) = IsFinal os
IsFinal (flushes ∷ os) = IsFinal os
IsFinal (hijacks ∷ os) = IsFinal os

-- The recorder is committed exactly when something has gone out, and its status is the client's.
abbrev pub Agrees : ResponseRecorder → Type 0
Agrees rr =
    ((rr.committed ≡ false) × (wire rr.sent ≡ nothing))
    ⊎ ((rr.committed ≡ true) × ((wire rr.sent ≡ begun rr.status) ⊎ (wire rr.sent ≡ taken)))

-- Something has gone out, and it says what the recorder says.
abbrev pub HasBegun : ResponseRecorder → Type 0
HasBegun rr =
    (rr.committed ≡ true)
    × (rr.status ≢ 0)
    × ((wire rr.sent ≡ begun rr.status) ⊎ (wire rr.sent ≡ taken))

abbrev pub IsUntouched : ResponseRecorder → Type 0
IsUntouched rr = (rr.committed ≡ false) × (rr.status ≡ 0) × (wire rr.sent ≡ nothing)

abbrev pub IsTold : ResponseRecorder → Type 0
IsTold rr = IsUntouched rr ⊎ HasBegun rr

module _ (w : Writer) where
  begun-apply :
      (o : Operation) (rr : ResponseRecorder) (status : ℕ)
      → wire rr.sent ≡ begun status
      → wire (apply w o rr).sent ≡ begun status
  unfolding apply write_header write flush hijack
  begun-apply (writes_header code) rr status h = ground arith
  begun-apply (writes b) rr status h = ground arith
  begun-apply flushes rr status h = ground arith
  begun-apply hijacks rr status h = ground arith

  apply-HasBegun : (o : Operation) (rr : ResponseRecorder) → HasBegun rr → HasBegun (apply w o rr)
  unfolding apply write_header write flush hijack
  apply-HasBegun (writes_header code) rr h = ground arith
  apply-HasBegun (writes b) rr h = ground arith
  apply-HasBegun flushes rr h = ground arith
  apply-HasBegun hijacks rr (h, n, inl e) = ground arith
  apply-HasBegun hijacks rr (h, n, inr e) = ground arith

  apply_all-HasBegun :
      (os : List Operation) (rr : ResponseRecorder) → HasBegun rr → HasBegun (apply_all w os rr)
  unfolding apply_all
  apply_all-HasBegun [] rr h = h
  apply_all-HasBegun (o ∷ os) rr h = apply_all-HasBegun os (apply w o rr) (apply-HasBegun o rr h)

  commit-HasBegun :
      (o : Operation) (os : List Operation) (rr : ResponseRecorder)
      → IsUntouched rr
      → IsPatient (o ∷ os)
      → IsFinal (o ∷ os)
      → (IsUntouched (apply w o rr) × IsPatient os × IsFinal os) ⊎ HasBegun (apply w o rr)
  unfolding apply write_header write flush hijack
  commit-HasBegun (writes_header code) os rr (h, n, e) p (final, f) = inr (ground arith)
  commit-HasBegun (writes b) os rr (h, n, e) p f = inr (ground arith)
  commit-HasBegun flushes os rr u p f = absurd p
  commit-HasBegun hijacks os rr (h, n, e) p f = elim (Bool-cases w.is_hijacker) [
    | inl able ↦ inr (ground arith)
    | inr unable ↦ inl (rw unable (h, n, e), p, f)
  ]

  pub apply_all-IsTold :
      (os : List Operation) (rr : ResponseRecorder)
      → IsTold rr
      → IsPatient os
      → IsFinal os
      → IsTold (apply_all w os rr)
  unfolding apply_all
  apply_all-IsTold [] rr told p f = told
  apply_all-IsTold (o ∷ os) rr (inr h) p f =
      inr (apply_all-HasBegun os (apply w o rr) (apply-HasBegun o rr h))
  apply_all-IsTold (o ∷ os) rr (inl u) p f = elim (commit-HasBegun o os rr u p f) [
    | inl (still, later, final) ↦ apply_all-IsTold os (apply w o rr) (inl still) later final
    | inr begun_now ↦ inr (apply_all-HasBegun os (apply w o rr) begun_now)
  ]

  told-Agrees : (rr : ResponseRecorder) → IsTold rr → Agrees rr
  told-Agrees rr (inl (h, n, e)) = inl (h, e)
  told-Agrees rr (inr (h, n, e)) = inr (h, e)

  -- If a handler flushes nothing before it begins its response, and writes final statuses only, then
  -- afterwards the recorder is committed exactly if something has gone out to the client, and what has
  -- gone out is the status that the recorder has, or what the caller of Hijack writes.
  pub apply_all-Agrees :
      (os : List Operation)
      → IsPatient os
      → IsFinal os
      → Agrees (apply_all w os new_response_recorder)
  apply_all-Agrees os p f =
      told-Agrees (apply_all w os new_response_recorder)
        (apply_all-IsTold os new_response_recorder (inl (refl, refl, refl)) p f)

  begun-apply_all :
      (os : List Operation) (rr : ResponseRecorder) (status : ℕ)
      → wire rr.sent ≡ begun status
      → wire (apply_all w os rr).sent ≡ begun status
  unfolding apply_all
  begun-apply_all [] rr status h = h
  begun-apply_all (o ∷ os) rr status h =
      begun-apply_all os (apply w o rr) status (begun-apply o rr status h)

  -- A handler that flushes before it begins its response settles the client's status: it is 200,
  -- whatever follows, while the recorder reports the status of the next WriteHeader and is not committed
  -- before that. The client's writer is a Flusher.
  pub flush-wire :
      (code : ℕ) (os : List Operation)
      → w.is_flusher ≡ true
      → 200 ≤ code
      → let flushed_first = apply w flushes new_response_recorder in
        (flushed_first.committed ≡ false)
        × (wire flushed_first.sent ≡ begun 200)
        × (wire (apply_all w (writes_header code ∷ os) flushed_first).sent ≡ begun 200)
        × (observed_status (apply_all w (writes_header code ∷ os) flushed_first) ≡ code)
  unfolding apply apply_all flush write_header
  flush-wire code os flusher final =
      let flushed_first = apply w flushes new_response_recorder in
      let out : wire flushed_first.sent ≡ begun 200 = rw flusher refl in
      (
        rw flusher refl,
        out,
        begun-apply_all (writes_header code ∷ os) flushed_first 200 out,
        rw flusher (
            (apply_all-observed_status w os
              (record {
                status = code;
                committed = true;
                bytes = 0;
                sent = header code ∷ flushed ∷ [];
              })
              refl (λ none_set. omega (arith, none_set, final))).1),
      )
