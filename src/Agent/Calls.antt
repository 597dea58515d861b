-- ===== src/Agent/Calls.antt =====
-- The calls of the device client meet a policy that allows their payload.
use embewi_core.Base.{
  ◌-◌, ℕ, zero, suc, ◌+◌, String, true, false, ◌≡◌, Option, none, some, Result, ok, err, ltb, Assoc,
}
use embewi_core.Base.Int.{ℤ, pos_part}
use embewi_core.Api.Meta.{Bytes}
use embewi_core.Api.Deployment.{McuDeployment}
use embewi_core.Agent.Protocol.{
  Client, Payload, no_body, octets, prepare_json, activate_json, config_json, empty_json, port_json,
  PrepareRequest,
}
use embewi_core.Agent.Client.{
  get_info, ota_prepare, get_config, post_config, post_reboot, ota_activate, post_app_port,
  is_bad_port,
}
use embewi_core.Agent.Chunk.{
  ChunkStep, retry, confirmed, refused, resume_at, ota_chunk_max_attempts, after_step, on_response,
  send_range, put_attempts, put_ota_chunk,
}
use embewi_core.Agent.Write.{
  Written, after_put, after_read, range_end, write_next, write_loop, or_out_of_fuel, ota_write,
}
use embewi_core.Oci.Blob.{BlobStream, read_full}
use embewi_core.World.Env.{Env}
use embewi_core.World.Action.{M}
use embewi_core.World.Emits.{more, same, Emits, Emits-pure, Emits-bind, Emits-if}
use embewi_core.World.Policy.{Policy}

module _ ⦃env : Env⦄ (Q : McuDeployment → McuDeployment → Type 0) (H : Payload → Type 0)
    (c : Client) where
  pub get_info-Policy : H no_body → Emits (Policy Q H) (get_info c)
  unfolding get_info
  get_info-Policy h = record { at = λ w. more h same }

  pub get_config-Policy : H no_body → Emits (Policy Q H) (get_config c)
  unfolding get_config
  get_config-Policy h = record { at = λ w. more h same }

  pub ota_prepare-Policy :
      (req : PrepareRequest) → H (prepare_json req) → Emits (Policy Q H) (ota_prepare c req)
  unfolding ota_prepare
  ota_prepare-Policy req h = record { at = λ w. more h same }

  pub post_config-Policy :
      (m : Assoc String) → H (config_json m) → Emits (Policy Q H) (post_config c m)
  unfolding post_config
  post_config-Policy m h = record { at = λ w. more h same }

  pub post_reboot-Policy : H empty_json → Emits (Policy Q H) (post_reboot c)
  unfolding post_reboot
  post_reboot-Policy h = record { at = λ w. more h same }

  pub ota_activate-Policy :
      (id : String)
      → H (activate_json (record { deployment_id = id; reboot = true }))
      → Emits (Policy Q H) (ota_activate c id)
  unfolding ota_activate
  ota_activate-Policy id h = record { at = λ w. more h same }

  pub post_app_port-Policy :
      (port : ℤ)
      → (is_bad_port port ≡ false → H (port_json port))
      → Emits (Policy Q H) (post_app_port c port)
  unfolding post_app_port
  post_app_port-Policy port h =
      Emits-if (is_bad_port port) _ _ (λ _. record { at = λ w. same })
        (λ e. record { at = λ w. more (h e) same })

  module _ (h : (x : Bytes) → H (octets x)) (id digest : String) (size : ℤ) where
    after_step-Policy :
        (again : ℕ → Bytes → M (Result (Unit {0}))) (chunk : Bytes) (start offset : ℕ)
        (remaining : Bytes) (step : ChunkStep)
        → ((o : ℕ) (x : Bytes) → Emits (Policy Q H) (again o x))
        → Emits (Policy Q H) (after_step again chunk start offset remaining step)
    unfolding after_step
    after_step-Policy again chunk start offset remaining retry k = k _ _
    after_step-Policy again chunk start offset remaining confirmed k = Emits-pure _
    after_step-Policy again chunk start offset remaining (refused e) k = Emits-pure _
    after_step-Policy again chunk start offset remaining (resume_at w) k = k _ _

    send_range-Policy :
        (offset end : ℕ) (x : Bytes) → Emits (Policy Q H) (send_range c id digest size offset end x)
    unfolding send_range
    send_range-Policy offset end x = record { at = λ w. more (h x) same }

    put_attempts-Policy :
        (chunk : Bytes) (start end attempts offset : ℕ) (remaining : Bytes)
        → Emits
            (Policy Q H)
            (put_attempts c id digest size chunk start end attempts offset remaining)
    unfolding put_attempts
    put_attempts-Policy chunk start end zero offset remaining = Emits-pure _
    put_attempts-Policy chunk start end (suc attempts) offset remaining =
        Emits-bind _ _ (send_range-Policy offset end remaining) (λ r.
          after_step-Policy _ chunk start offset remaining (on_response offset end r)
            (put_attempts-Policy chunk start end attempts))

    after_put-Policy :
        (again : ℕ → BlobStream → M Written) (end : ℕ) (b : BlobStream) (r : Result (Unit {0}))
        → Emits (Policy Q H) (again (end + 1) b)
        → Emits (Policy Q H) (after_put again end b r)
    unfolding after_put
    after_put-Policy again end b (ok _) k = k
    after_put-Policy again end b (err e) k = Emits-pure _

    after_read-Policy :
        (again : ℕ → BlobStream → M Written) (start end : ℕ) (chunk : Option Bytes) (b : BlobStream)
        → ((o : ℕ) (b' : BlobStream) → Emits (Policy Q H) (again o b'))
        → Emits (Policy Q H) (after_read c id digest size again start end chunk b)
    unfolding after_read put_ota_chunk
    after_read-Policy again start end none b k = Emits-pure _
    after_read-Policy again start end (some chunk) b k =
        Emits-bind _ _ (put_attempts-Policy chunk start end ota_chunk_max_attempts start chunk)
          (λ r. after_put-Policy again end b r (k _ b))

    write_next-Policy :
        (again : ℕ → BlobStream → M Written) (start : ℕ) (b : BlobStream)
        → ((o : ℕ) (b' : BlobStream) → Emits (Policy Q H) (again o b'))
        → Emits (Policy Q H) (write_next c id digest size again start b)
    unfolding write_next
    write_next-Policy again start b k =
        let end = range_end (pos_part size) start in
        let r = read_full b (end - start + 1) in after_read-Policy again start end r.0 r.1 k

    write_loop-Policy :
        (fuel start : ℕ) (b : BlobStream)
        → Emits (Policy Q H) (write_loop c id digest size fuel start b)
    unfolding write_loop
    write_loop-Policy zero start b =
        Emits-if (ltb start (pos_part size)) _ _ (λ _. record { at = λ w. same })
          (λ _. record { at = λ w. same })
    write_loop-Policy (suc fuel) start b =
        Emits-if (ltb start (pos_part size)) _ _
          (λ _.
            write_next-Policy (write_loop c id digest size fuel) start b (write_loop-Policy fuel))
          (λ _. record { at = λ w. same })

    pub ota_write-Policy : (b : BlobStream) → Emits (Policy Q H) (ota_write c id digest size b)
    unfolding ota_write
    ota_write-Policy b =
        Emits-bind _ _ (write_loop-Policy (pos_part size) 0 b)
          (λ r. Emits-pure (or_out_of_fuel b r))
