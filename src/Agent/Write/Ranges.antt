-- ===== src/Agent/Write/Ranges.antt =====
-- What OTAWrite sends: ranges of the firmware, each with its own octets.
use mathlib.Core.Path.{subst}
use embewi_core.Base.{
  ℕ, zero, suc, ◌+◌, ◌-◌, ◌≤◌, ◌<◌, String, ◌≡◌, refl, sym, ap, ◌∙◌, Option, none, some, [], arith,
  length, length-append, slice, Result, ok, err, ltb,
}
use embewi_core.Base.Int.{ℤ, pos_part}
use embewi_core.Api.Meta.{Bytes}
use embewi_core.Agent.Protocol.{Client}
use embewi_core.Agent.Chunk.{put_ota_chunk}
use embewi_core.Agent.Chunk.Ranges.{IsRangeOf, put_ota_chunk-IsRangeOf}
use embewi_core.Agent.Write.{
  Written, range_end, after_put, after_read, write_next, write_loop, ota_write, or_out_of_fuel,
}
use embewi_core.Oci.Blob.{BlobStream, read_full}
use embewi_core.Oci.Blob.Reading.{joined, content, IsNext, read_full-IsNext}
use embewi_core.World.Env.{Env}
use embewi_core.World.Action.{M}
use embewi_core.World.Emits.{Emits, Emits-pure, Emits-bind, Emits-if}

-- a range begins where the last one stopped, and ends inside the firmware
pub range_end_bounds :
    (total start : ℕ)
    → start < total
    → (start ≤ range_end total start) × (range_end total start < total)
unfolding range_end
range_end_bounds total start h = ground arith

-- where the loop stands before a round: `start` octets of the firmware `all` were read
pub record AtOffset (all : Bytes) (start : ℕ) (b : BlobStream) : Type 0 where
  pub read_so_far : length b.hashed ≡ start
  pub whole : content b ≡ all

module _ (all : Bytes) {start end : ℕ} {b b' : BlobStream} {got : Bytes} where
  pub AtOffset-next :
      start ≤ end
      → AtOffset all start b
      → IsNext b (end - start + 1) got b'
      → (got ≡ slice all start (end + 1)) × (end < length all) × AtOffset all (end + 1) b'
  AtOffset-next h at next =
      let stop : start + (end - start + 1) ≡ end + 1 = omega arith in
      let n : length b'.hashed ≡ end + 1 =
        ap length next.hashed
        ∙ omega (arith, length-append b.hashed got, at.read_so_far, next.complete) in
      let fits : end < length all = omega (
        arith,
        length-append b'.hashed (joined b'.source.segments),
        ap length (next.kept ∙ at.whole),
      ) in
      (
        next.stretch
            ∙ ap (λ t. slice t (length b.hashed) (length b.hashed + (end - start + 1))) at.whole
            ∙ ap (λ m. slice all m (m + (end - start + 1))) at.read_so_far
            ∙ ap (slice all start) stop,
        fits,
        record { read_so_far = n; whole = next.kept ∙ at.whole },
      )

module _ ⦃env : Env⦄ (c : Client) (id digest : String) (size : ℤ) (all : Bytes) where
  abbrev Sends : {A : Type 0} → M A → Type 0
  Sends m = Emits (IsRangeOf c id digest size all) m

  after_put-Sends :
      (again : ℕ → BlobStream → M Written) (end : ℕ) (b : BlobStream) (r : Result (Unit {0}))
      → Sends (again (end + 1) b)
      → Sends (after_put again end b r)
  unfolding after_put
  after_put-Sends again end b (ok _) k = k
  after_put-Sends again end b (err e) k = Emits-pure _

  after_read-Sends :
      (again : ℕ → BlobStream → M Written) (start end : ℕ) (chunk : Option Bytes)
      (b b' : BlobStream)
      → start ≤ end
      → end < pos_part size
      → AtOffset all start b
      → ((got : Bytes) → chunk ≡ some got → IsNext b (end - start + 1) got b')
      → ((b'' : BlobStream) → AtOffset all (end + 1) b'' → Sends (again (end + 1) b''))
      → Sends (after_read c id digest size again start end chunk b')
  unfolding after_read
  after_read-Sends again start end none b b' h k at next ih = Emits-pure _
  after_read-Sends again start end (some chunk) b b' h k at next ih =
      let (here, inside, at') = AtOffset-next all h at (next chunk refl) in
      Emits-bind _ _
        (subst (λ t. Sends (put_ota_chunk c id digest size t start end)) (sym here)
          (put_ota_chunk-IsRangeOf c id digest size all start end h k inside))
        (λ r. after_put-Sends again end b' r (ih b' at'))

  write_next-Sends :
      (again : ℕ → BlobStream → M Written) (start : ℕ) (b : BlobStream)
      → start < pos_part size
      → AtOffset all start b
      → ((end : ℕ) (b' : BlobStream) → AtOffset all (end + 1) b' → Sends (again (end + 1) b'))
      → Sends (write_next c id digest size again start b)
  unfolding write_next
  write_next-Sends again start b h at ih =
      let (low, high) = range_end_bounds (pos_part size) start h in
      let end = range_end (pos_part size) start in
      let r = read_full b (end - start + 1) in
      after_read-Sends again start end r.0 b r.1 low high at
        (λ got e. read_full-IsNext b (end - start + 1) got e) (ih end)

  write_loop-Sends :
      (fuel start : ℕ) (b : BlobStream)
      → AtOffset all start b
      → Sends (write_loop c id digest size fuel start b)
  unfolding write_loop
  write_loop-Sends zero start b at =
      Emits-if (ltb start (pos_part size)) _ _ (λ _. Emits-pure _) (λ _. Emits-pure _)
  write_loop-Sends (suc fuel) start b at =
      Emits-if (ltb start (pos_part size)) _ _
        (λ more.
          write_next-Sends (write_loop c id digest size fuel) start b (ground arith) at
            (λ end b' at'. write_loop-Sends fuel (end + 1) b' at'))
        (λ _. Emits-pure _)

-- Every request that OTAWrite sends, on whatever network and at every retry and resynchronisation,
-- is a PUT to /v1alpha1/ota/write of the octets of the stream at its own Content-Range, which is not
-- empty and lies within the announced size, with the device's token, the deployment's id and digest
-- and the Content-Length of those octets; the stream is one of which nothing is read yet.
pub ota_write-IsRangeOf :
    ⦃env : Env⦄ (c : Client) (id digest : String) (size : ℤ) (b : BlobStream)
    → b.hashed ≡ []
    → Emits (IsRangeOf c id digest size (content b)) (ota_write c id digest size b)
unfolding ota_write
ota_write-IsRangeOf c id digest size b fresh =
    Emits-bind _ _
      (write_loop-Sends c id digest size (content b) (pos_part size) 0 b
        (record { read_so_far = ap length fresh; whole = refl }))
      (λ r. Emits-pure (or_out_of_fuel b r))
