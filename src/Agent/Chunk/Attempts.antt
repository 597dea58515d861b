-- ===== src/Agent/Chunk/Attempts.antt =====
-- How many requests one range of the firmware costs.
use embewi_core.Base.{ℕ, zero, suc, ◌+◌, ◌≤◌, String, Result, length, arith}
use embewi_core.Base.Int.{ℤ}
use embewi_core.Api.Meta.{Bytes}
use embewi_core.Agent.Protocol.{Client}
use embewi_core.Agent.Chunk.{
  ChunkStep, retry, confirmed, refused, resume_at, ota_chunk_max_attempts, after_step, on_response,
  send_range, put_attempts, put_ota_chunk,
}
use embewi_core.World.Env.{Env}
use embewi_core.World.Action.{World, M}

-- an action makes at most so many calls
abbrev pub CallsAtMost : {A : Type 0} → ℕ → M A → Type 0
CallsAtMost n m = (w : World) → length (m w).1.history ≤ length w.history + n

module _ ⦃env : Env⦄ (c : Client) (id digest : String) (size : ℤ) where
  after_step-CallsAtMost :
      (n : ℕ) (again : ℕ → Bytes → M (Result (Unit {0})))
      → ((o : ℕ) (x : Bytes) → CallsAtMost n (again o x))
      → (chunk : Bytes) (start offset : ℕ) (remaining : Bytes) (step : ChunkStep)
      → CallsAtMost n (after_step again chunk start offset remaining step)
  unfolding after_step
  after_step-CallsAtMost n again k chunk start offset remaining retry w = k _ _ w
  after_step-CallsAtMost n again k chunk start offset remaining confirmed w = omega arith
  after_step-CallsAtMost n again k chunk start offset remaining (refused e) w = omega arith
  after_step-CallsAtMost n again k chunk start offset remaining (resume_at x) w = k _ _ w

  put_attempts-CallsAtMost :
      (chunk : Bytes) (start end attempts offset : ℕ) (remaining : Bytes)
      → CallsAtMost attempts
          (put_attempts c id digest size chunk start end attempts offset remaining)
  unfolding put_attempts send_range
  put_attempts-CallsAtMost chunk start end zero offset remaining w = omega arith
  put_attempts-CallsAtMost chunk start end (suc attempts) offset remaining w =
      let (r, w') = send_range c id digest size offset end remaining w in
      omega (
        arith,
        after_step-CallsAtMost attempts (put_attempts c id digest size chunk start end attempts)
            (put_attempts-CallsAtMost chunk start end attempts) chunk start offset remaining
            (on_response offset end r) w',
      )

  -- A range of the firmware costs at most three requests, whatever the device answers: retries and
  -- resynchronisations together.
  pub put_ota_chunk-CallsAtMost :
      (chunk : Bytes) (start end : ℕ) (w : World)
      → length (put_ota_chunk c id digest size chunk start end w).1.history
        ≤ length w.history + ota_chunk_max_attempts
  unfolding put_ota_chunk
  put_ota_chunk-CallsAtMost chunk start end =
      put_attempts-CallsAtMost chunk start end ota_chunk_max_attempts start chunk
