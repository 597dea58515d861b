-- ===== src/Agent/Chunk/Ranges.antt =====
-- What a try of one range sends.
use Prim.Native.String.{◌++◌}
use embewi_core.Base.{
  ℕ, zero, suc, ◌+◌, ◌-◌, ◌≤◌, ◌<◌, String, ◌≡◌, refl, sym, ap, some, ◌∷◌, [], arith, length, slice,
  length-slice, drop-slice, Result,
}
use embewi_core.Base.Int.{ℤ, pos_part}
use embewi_core.Api.Meta.{Bytes}
use embewi_core.Agent.Protocol.{
  Client, HttpRequest, HttpResponse, authorization, content_type, content_range,
  x_embewi_deployment_id, x_embewi_digest, octets,
}
use mathlib.Core.Path.{subst}
use embewi_core.Agent.Chunk.{
  after_step, ChunkStep, retry, confirmed, refused, resume_at, on_response, on_resync, send_range,
  put_attempts, put_ota_chunk,
}
use embewi_core.World.Call.{Call, http_sent}
use embewi_core.World.Env.{Env}
use embewi_core.World.Action.{M}
use embewi_core.World.Emits.{Emits, Emits-pure, Emits-call, Emits-bind}

-- A request of OTAWrite: the octets of `content` from `offset` to `end`, under a Content-Range that
-- says so and a Content-Length that is theirs.
pub data IsRangeOf (c : Client) (id digest : String) (size : ℤ) (content : Bytes)
    : Call → Type 0 where
  range_of :
      (offset end : ℕ) (r : HttpRequest)
      → offset ≤ end
      → end < pos_part size
      → r.method ≡ "PUT"
      → r.url ≡ c.base_url ++ "/v1alpha1" ++ "/ota/write"
      → r.body ≡ octets (slice content offset (end + 1))
      → r.content_length ≡ some (end + 1 - offset)
      → r.headers
        ≡ authorization c.token
          ∷ content_type "application/octet-stream"
          ∷ content_range offset end size
          ∷ x_embewi_deployment_id id
          ∷ x_embewi_digest digest
          ∷ []
      → IsRangeOf c id digest size content (http_sent r)

-- a device can move the offset forward only, and within the range
on_resync-resume :
    (offset end : ℕ) (n : ℤ) (w : ℕ)
    → on_resync offset end n ≡ resume_at w
    → (offset ≤ w) × (w ≤ end)
unfolding on_resync
on_resync-resume offset end n w h = ground arith

module _ ⦃env : Env⦄ where
  on_response-resume :
      (offset end : ℕ) (r : Result HttpResponse) (w : ℕ)
      → on_response offset end r ≡ resume_at w
      → (offset ≤ w) × (w ≤ end)
  unfolding on_response on_resync
  on_response-resume offset end r w h = ground arith

module _ ⦃env : Env⦄ (c : Client) (id digest : String) (size : ℤ) (content : Bytes) where
  send_range-IsRangeOf :
      (offset end : ℕ)
      → offset ≤ end
      → end < pos_part size
      → end < length content
      → Emits
          (IsRangeOf c id digest size content)
          (send_range c id digest size offset end (slice content offset (end + 1)))
  unfolding send_range
  send_range-IsRangeOf offset end h k l =
      let len : length (slice content offset (end + 1)) ≡ end + 1 - offset =
        length-slice content offset (end + 1) (omega arith) in
      Emits-call _ _ (range_of offset end _ h k refl refl refl (ap some len) refl)

  -- what one round may go on with
  abbrev GoesOn : ℕ → ℕ → (ℕ → Bytes → M (Result (Unit {0}))) → Type 0
  GoesOn start end again =
      (offset : ℕ) (remaining : Bytes)
      → start ≤ offset
      → offset ≤ end
      → remaining ≡ slice content offset (end + 1)
      → Emits (IsRangeOf c id digest size content) (again offset remaining)

  after_step-IsRangeOf :
      (start end offset : ℕ) (remaining : Bytes) (again : ℕ → Bytes → M (Result (Unit {0})))
      (step : ChunkStep)
      → start ≤ offset
      → offset ≤ end
      → remaining ≡ slice content offset (end + 1)
      → ((w : ℕ) → step ≡ resume_at w → (offset ≤ w) × (w ≤ end))
      → GoesOn start end again
      → Emits
          (IsRangeOf c id digest size content)
          (after_step again (slice content start (end + 1)) start offset remaining step)
  unfolding after_step
  after_step-IsRangeOf start end offset remaining again retry s h e f ih = ih offset remaining s h e
  after_step-IsRangeOf start end offset remaining again confirmed s h e f ih = Emits-pure _
  after_step-IsRangeOf start end offset remaining again (refused x) s h e f ih = Emits-pure _
  after_step-IsRangeOf start end offset remaining again (resume_at w) s h e f ih =
      let bounds : (offset ≤ w) × (w ≤ end) = f w refl in
      let first : start ≤ w = omega arith in
      ih w _ first bounds.1 (drop-slice content start w (end + 1) first)

  put_attempts-IsRangeOf :
      (start end attempts : ℕ)
      → end < pos_part size
      → end < length content
      → GoesOn start end
          (put_attempts c id digest size (slice content start (end + 1)) start end attempts)
  unfolding put_attempts
  put_attempts-IsRangeOf start end zero k l offset remaining s h e = Emits-pure _
  put_attempts-IsRangeOf start end (suc attempts) k l offset remaining s h e =
      Emits-bind _ _
        (subst
          (λ m.
            Emits (IsRangeOf c id digest size content) (send_range c id digest size offset end m))
          (sym e) (send_range-IsRangeOf offset end h k l))
        (λ r.
          after_step-IsRangeOf start end offset remaining _ _ s h e
            (on_response-resume offset end r) (put_attempts-IsRangeOf start end attempts k l))

  -- Every request for the range from `start` to `end` carries the octets of the firmware at its
  -- own Content-Range, at every attempt and after every resynchronisation.
  pub put_ota_chunk-IsRangeOf :
      (start end : ℕ)
      → start ≤ end
      → end < pos_part size
      → end < length content
      → Emits
          (IsRangeOf c id digest size content)
          (put_ota_chunk c id digest size (slice content start (end + 1)) start end)
  unfolding put_ota_chunk
  put_ota_chunk-IsRangeOf start end h k l =
      put_attempts-IsRangeOf start end 3 k l start _ (omega arith) h refl
