-- ===== src/Agent/Write.antt =====
-- internal/agent/client.go, OTAWrite: the firmware in ranges of 64 KiB. A negative size makes no
-- round, as in the source; sizes within 64 KiB of the largest int64 are out of scope.
pub mod Ranges
pub mod Loop
pub mod Verdict
use embewi_core.Base.{
  ℕ, zero, suc, ◌+◌, ◌-◌, ◌*◌, String, Option, none, some, Result, ok, err, plain, wrap, str,
  number, ◌<>◌, ltb, leb, if◌then◌else◌,
}
use embewi_core.Base.Int.{ℤ, pos_part}
use embewi_core.Api.Meta.{Bytes}
use embewi_core.Agent.Protocol.{Client}
use embewi_core.Agent.Chunk.{put_ota_chunk}
use embewi_core.Oci.Blob.{BlobStream, read_full}
use embewi_core.World.Env.{Env}
use embewi_core.World.Action.{M, pure, ◌>>=◌}

abbrev pub ota_chunk_size : ℕ
ota_chunk_size = 64 * 1024

-- what OTAWrite leaves: its error, and the stream that it read; `none` where fuel ran out
abbrev pub Written : Type 0
Written = Option (Result (Unit {0}) × BlobStream)

-- the last octet of the range that begins at `start`
unfoldable pub range_end : ℕ → ℕ → ℕ
range_end total start =
    let end = start + ota_chunk_size - 1 in if leb total end then total - 1 else end

unfoldable pub after_put :
    (ℕ → BlobStream → M Written) → ℕ → BlobStream → Result (Unit {0}) → M Written
after_put again end b (ok _) = again (end + 1) b
after_put again end b (err e) = pure (some (err e, b))

abbrev pub or_out_of_fuel : BlobStream → Written → Result (Unit {0}) × BlobStream
or_out_of_fuel b none = (err (plain (str "out of fuel")), b)
or_out_of_fuel b (some r) = r

module _ ⦃env : Env⦄ (c : Client) (deployment_id digest : String) (size : ℤ) where
  unfoldable pub after_read :
      (ℕ → BlobStream → M Written) → ℕ → ℕ → Option Bytes → BlobStream → M Written
  unfolding after_put
  after_read again start end none b =
      pure
        (some (err (wrap (str "lecture firmware offset " <> number start) (plain (str "read"))), b))
  after_read again start end (some chunk) b = do
    r ← put_ota_chunk c deployment_id digest size chunk start end
    after_put again end b r

  -- the body of the loop
  unfoldable pub write_next : (ℕ → BlobStream → M Written) → ℕ → BlobStream → M Written
  unfolding after_read range_end
  write_next again start b =
      let end = range_end (pos_part size) start in
      let (chunk, b') = read_full b (end - start + 1) in after_read again start end chunk b'

  unfoldable pub write_loop : ℕ → ℕ → BlobStream → M Written
  write_loop zero start b = if ltb start (pos_part size) then pure none else pure (some (ok tt, b))
  write_loop (suc fuel) start b =
      if ltb start (pos_part size)
      then write_next (write_loop fuel) start b
      else pure (some (ok tt, b))

  -- Each round sends at least one octet, so `size` rounds are enough.
  unfoldable pub ota_write : BlobStream → M (Result (Unit {0}) × BlobStream)
  unfolding write_loop
  ota_write b = do r ← write_loop (pos_part size) 0 b; pure (or_out_of_fuel b r)
