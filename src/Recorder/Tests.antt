-- ===== src/Recorder/Tests.antt =====
-- The theorems about the recorder at a concrete response.
use vxapigateway.Prelude.{◌≡◌, refl, true, false, List, [], ◌∷◌, arith}
use vxapigateway.Prelude.Bytes.{codes}
use vxapigateway.Recorder.{
  Writer, flushed, new_response_recorder, Operation, writes_header, writes, flushes, hijacks, flush,
  apply, apply_all, observed_status,
}
use vxapigateway.Recorder.Wire.{Wire, wire, Agrees, apply_all-Agrees, flush-wire}

abbrev writer : Writer
writer = record { is_flusher = true; is_hijacker = false; accept = λ sent b. (2, false) }

abbrev response : List Operation
response = writes_header 404 ∷ writes (codes "no") ∷ flushes ∷ writes_header 500 ∷ hijacks ∷ []

apply_all-Agrees_example : Agrees (apply_all writer response new_response_recorder)
apply_all-Agrees_example = apply_all-Agrees writer response tt (omega arith)

flush-wire_example :
    ((apply writer flushes new_response_recorder).committed ≡ false)
    × (wire (flushed ∷ []) ≡ Wire.begun 200)
    × (wire
          (apply_all writer
            (writes_header 502 ∷ response)
            (flush writer new_response_recorder)).sent
        ≡ Wire.begun 200)
    × (observed_status
          (apply_all writer (writes_header 502 ∷ response) (flush writer new_response_recorder))
        ≡ 502)
unfolding apply flush
flush-wire_example = flush-wire writer 502 response refl (omega arith)
