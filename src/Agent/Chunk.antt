-- ===== src/Agent/Chunk.antt =====
-- internal/agent/client.go, putOTAChunk: one Content-Range of the firmware, tried at most three times.
pub mod Ranges
pub mod Attempts
use embewi_core.Base.{
  ℕ, zero, suc, ◌-◌, ◌+◌, String, ◌||◌, none, some, [], ◌∷◌, Result, ok, err, Error, plain, str,
  number, bytes, ◌<>◌, ota_write_error, eqb, ltb, if◌then◌else◌, ◌==◌, length, drop,
}
use embewi_core.Base.Int.{ℤ, pos, negsuc}
use embewi_core.Api.Meta.{Bytes}
use embewi_core.Agent.Protocol.{
  Client, HttpResponse, WriteResult, content_type, content_range, x_embewi_deployment_id,
  x_embewi_digest, octets,
}
use embewi_core.Agent.Http.{do_with}
use embewi_core.World.Env.{Env}
use embewi_core.World.Action.{M, pure, ◌>>=◌}

abbrev pub ota_chunk_max_attempts : ℕ
ota_chunk_max_attempts = 3

-- what the loop does after one attempt
pub data ChunkStep : Type 0 where
  retry confirmed : ChunkStep
  refused : Error → ChunkStep
  resume_at : ℕ → ChunkStep

-- the body of a 200
unfoldable pub on_written : Result WriteResult → ChunkStep
on_written (err e) = refused e
on_written (ok r) =
    if r.status == "written" || r.status == "partial"
    then confirmed
    else refused (ota_write_error (if r.status == "" then r.error else r.status) 0)

-- the body of a 416: the offset up to which the device has the bytes
unfoldable pub on_resync : ℕ → ℕ → ℤ → ChunkStep
on_resync offset end (negsuc n) = refused (ota_write_error "range_mismatch" 416)
on_resync offset end (pos written) =
    if ltb written offset || ltb (end + 1) written
    then refused (ota_write_error "range_mismatch" 416)
    else if eqb written (end + 1)
    then confirmed
    else resume_at written

module _ ⦃env : Env⦄ where
  on_status : ℕ → ℕ → ℕ → Bytes → ChunkStep
  unfolding on_written on_resync
  on_status offset end status raw =
      if eqb status 200
      then on_written (env.decode_write raw)
      else if eqb status 416
      then on_resync offset end (env.decode_written raw)
      else if eqb status 500
      then refused (ota_write_error "ota_begin_failed" 500)
      else refused (plain (str "PUT /ota/write → " <> number status <> str ": " <> bytes raw))

  -- a failed request, or a response that cannot be read, is tried again
  unfoldable pub on_response : ℕ → ℕ → Result HttpResponse → ChunkStep
  unfolding on_status
  on_response offset end (err e) = retry
  on_response offset end (ok r) = elim r.body [
    | none ↦ retry
    | some raw ↦ on_status offset end r.status_code raw
  ]

-- the end of the loop's body: `again` is the next round
unfoldable pub after_step :
    (ℕ → Bytes → M (Result (Unit {0}))) → Bytes → ℕ → ℕ → Bytes → ChunkStep → M (Result (Unit {0}))
after_step again chunk start offset remaining retry = again offset remaining
after_step again chunk start offset remaining confirmed = pure (ok tt)
after_step again chunk start offset remaining (refused e) = pure (err e)
after_step again chunk start offset remaining (resume_at written) =
    again written (drop (written - start) chunk)

module _ ⦃env : Env⦄ (c : Client) (deployment_id digest : String) (size : ℤ) where
  unfoldable pub send_range : ℕ → ℕ → Bytes → M (Result HttpResponse)
  unfolding do_with
  send_range offset end remaining =
      do_with c "PUT" "/ota/write" (octets remaining) (some (length remaining)) (
        content_type "application/octet-stream"
        ∷ content_range offset end size
        ∷ x_embewi_deployment_id deployment_id
        ∷ x_embewi_digest digest
        ∷ [])

  -- the attempts that are left; `remaining` is always `chunk[offset-start:]`
  unfoldable pub put_attempts : Bytes → ℕ → ℕ → ℕ → ℕ → Bytes → M (Result (Unit {0}))
  unfolding after_step
  put_attempts chunk start end zero offset remaining = pure (
      err (
        plain (
          str "PUT /ota/write plage "
          <> number start
          <> str "-"
          <> number end
          <> str ": abandon après "
          <> number ota_chunk_max_attempts
          <> str " tentatives")))
  put_attempts chunk start end (suc attempts) offset remaining = do
    r ← send_range offset end remaining
    after_step (put_attempts chunk start end attempts) chunk start offset remaining
        (on_response offset end r)

  unfoldable pub put_ota_chunk : Bytes → ℕ → ℕ → M (Result (Unit {0}))
  unfolding put_attempts
  put_ota_chunk chunk start end = put_attempts chunk start end ota_chunk_max_attempts start chunk
