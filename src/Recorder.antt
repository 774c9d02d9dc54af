-- ===== src/Recorder.antt =====
-- The responseRecorder of recorder.go, between the proxy and the writer of the client's connection.
pub mod Laws
pub mod Wire
mod Tests
use vxapigateway.Prelude.{
  ℕ, ◌+◌, ◌≡◌, Bool, true, false, List, [], ◌∷◌, ◌++◌, Option, none, some, ◌==◌, if◌then◌else◌,
}
use vxapigateway.Prelude.Bytes.{Bytes}
use vxapigateway.Prelude.Word.{add64}

-- A call of the client's writer.
pub data ClientEvent : Type 0 where
  header : ℕ → ClientEvent
  body : Bytes → ClientEvent
  flushed hijacked : ClientEvent

-- The client's writer: what it implements beside http.ResponseWriter, and how many bytes it takes of
-- a write, with whether it fails, after the calls so far.
pub record Writer : Type 0 where
  pub is_flusher : Bool
  pub is_hijacker : Bool
  pub accept : List ClientEvent → Bytes → ℕ × Bool

-- `sent` holds the calls of the client's writer so far, the newest first. `bytes` is a pattern.
pub record ResponseRecorder : Type 0 where
  pub status : ℕ
  pub committed : Bool
  pub bytes : ℕ
  pub sent : List ClientEvent

abbrev pub new_response_recorder : ResponseRecorder
new_response_recorder = record { status = 0; committed = false; bytes = 0; sent = [] }

unfoldable pub write_header : ℕ → ResponseRecorder → ResponseRecorder
write_header code rr =
    if rr.committed
    then rr
    else record rr { status = code; committed = true; sent = header code ∷ rr.sent }

-- The method `Status`.
unfoldable pub observed_status : ResponseRecorder → ℕ
observed_status rr = if rr.status == 0 then 200 else rr.status

-- What a handler does with the recorder.
pub data Operation : Type 0 where
  writes_header : ℕ → Operation
  writes : Bytes → Operation
  flushes hijacks : Operation

module _ (w : Writer) where
  -- What the client's writer makes of the bytes of a committed response.
  abbrev pub pass_on : Bytes → ResponseRecorder → (ℕ × Bool) × ResponseRecorder
  pass_on b rr =
      let taken = w.accept rr.sent b in
      (taken, record rr { bytes = add64 rr.bytes taken.0; sent = body b ∷ rr.sent })

  unfoldable pub write : Bytes → ResponseRecorder → (ℕ × Bool) × ResponseRecorder
  unfolding write_header
  write b rr = pass_on b (if rr.committed then rr else write_header 200 rr)

  unfoldable pub flush : ResponseRecorder → ResponseRecorder
  flush rr = if w.is_flusher then record rr { sent = flushed ∷ rr.sent } else rr

  -- The Boolean says whether the connection was handed over; `false` is an error.
  unfoldable pub hijack : ResponseRecorder → Bool × ResponseRecorder
  hijack rr =
      if w.is_hijacker
      then (
        true,
        record rr {
          committed = true;
          status = if rr.status == 0 then 101 else rr.status;
          sent = hijacked ∷ rr.sent;
        },
      )
      else (false, rr)

  unfoldable pub apply : Operation → ResponseRecorder → ResponseRecorder
  unfolding write_header write flush hijack
  apply (writes_header code) rr = write_header code rr
  apply (writes b) rr = (write b rr).1
  apply flushes rr = flush rr
  apply hijacks rr = (hijack rr).1

  unfoldable pub apply_all : List Operation → ResponseRecorder → ResponseRecorder
  unfolding apply
  apply_all [] rr = rr
  apply_all (o ∷ operations) rr = apply_all operations (apply o rr)
