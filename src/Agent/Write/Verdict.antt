-- ===== src/Agent/Write/Verdict.antt =====
-- What BlobStream.Err says after OTAWrite returned nil, which is what phaseWriting asks.
use embewi_core.Base.{
  ℕ, ◌+◌, ◌-◌, ◌<◌, String, ◌≡◌, ◌≢◌, refl, sym, ap, ◌∙◌, none, some, [], ◌∷◌, ◌++◌, arith, length,
  length-append, ok,
}
use mathlib.Core.List.{append-nil}
use embewi_core.Base.Int.{ℤ, pos_part}
use embewi_core.Api.Meta.{Bytes}
use embewi_core.Agent.Protocol.{Client}
use embewi_core.Agent.Write.{Written, write_loop, ota_write, or_out_of_fuel, range_end}
use embewi_core.Agent.Write.Ranges.{AtOffset, AtOffset-next, range_end_bounds}
use embewi_core.Agent.Write.Loop.{write_loop-ne-none, write_loop-Inv}
use embewi_core.Oci.Blob.{BlobStream, read, read_full, check_digest, stream_err}
use embewi_core.Oci.Blob.Reading.{joined, content, read_full-IsNext}
use embewi_core.Oci.Blob.Verdict.{
  left, IsQuiet, IsJudged, read_full-IsQuiet, read_full-IsJudged, read_full_keeps, judged_end,
}
use embewi_core.World.Env.{Env}
use embewi_core.World.Action.{World}

-- a stream just opened by StreamBlob
pub record IsFresh (b : BlobStream) : Type 0 where
  pub unread : b.hashed ≡ []
  pub no_mismatch : b.mismatch ≡ none

module _ ⦃env : Env⦄ where
  from_ok :
      (b b' : BlobStream) (r : Written)
      → r ≢ none
      → or_out_of_fuel b r ≡ (ok tt, b')
      → r ≡ some (ok tt, b')
  from_ok b b' none h e = absurd (h refl)
  from_ok b b' (some x) h e = ap some e

  left_at :
      (all : Bytes) (start : ℕ) (b : BlobStream)
      → AtOffset all start b
      → left b ≡ length all - start
  left_at all start b at =
      omega (
        arith,
        length-append b.hashed (joined b.source.segments),
        ap length at.whole,
        at.read_so_far,
      )

module _ ⦃env : Env⦄ (c : Client) (id digest : String) (size : ℤ) (b : BlobStream)
    (fresh : IsFresh b) where
  at_start : AtOffset (content b) 0 b
  at_start = record { read_so_far = ap length fresh.unread; whole = refl }

  -- an invariant of the stream, that a full read keeps, holds when OTAWrite returns nil
  after_ok :
      (P : BlobStream → Type 0)
      → ((s : BlobStream) (need : ℕ) → P s → P (read_full s need).1)
      → P b
      → (w : World) (b' : BlobStream) → (ota_write c id digest size b w).0 ≡ (ok tt, b')
      → AtOffset (content b) (pos_part size) b' × P b'
  unfolding ota_write
  after_ok P keeps p w b' h =
      write_loop-Inv c id digest size (λ start s. AtOffset (content b) start s × P s)
        (λ start s got more inv e.
          let (low, high) = range_end_bounds (pos_part size) start more in
          let need = range_end (pos_part size) start - start + 1 in
          (
            (AtOffset-next (content b) low inv.0 (read_full-IsNext s need got e)).2,
            keeps s need inv.1,
          ))
        (pos_part size) 0 b (omega arith) (at_start, p) w b'
        (from_ok b b' (write_loop c id digest size (pos_part size) 0 b w).0
          (write_loop-ne-none c id digest size (pos_part size) 0 b w (omega arith)) h)

  -- If the stream, of which nothing is read yet and no mismatch is recorded, holds more octets than
  -- the announced size, then after an OTAWrite that returned nil Err returns nil, whatever the octets
  -- hash to.
  pub ota_write_blind :
      (w : World) (b' : BlobStream)
      → pos_part size < length (content b)
      → (ota_write c id digest size b w).0 ≡ (ok tt, b')
      → stream_err b' ≡ none
  unfolding stream_err
  ota_write_blind w b' h e =
      let (at, quiet) = after_ok IsQuiet read_full-IsQuiet (λ _. fresh.no_mismatch) w b' e in
      quiet (omega (arith, left_at (content b) (pos_part size) b' at))

  -- Take a stream of which nothing is read yet and no mismatch is recorded, that holds as many octets
  -- as the announced size in pieces that are not empty, and whose last piece comes together with
  -- io.EOF; with no piece at all, its digest is already judged. After an OTAWrite that returned nil,
  -- Err is the verdict of the digest over all its octets: nil where they hash to the wanted digest,
  -- and the mismatch where they do not.
  pub ota_write_judged :
      (w : World) (b' : BlobStream)
      → IsJudged b
      → length (content b) ≡ pos_part size
      → (ota_write c id digest size b w).0 ≡ (ok tt, b')
      → stream_err b' ≡ check_digest b.want_digest (content b)
  unfolding stream_err read
  ota_write_judged w b' j n e =
      let (at, (judged, want)) =
        after_ok (λ s. IsJudged s × (s.want_digest ≡ b.want_digest))
          (λ s need p. (read_full-IsJudged s need p.0, keep_want s need p.1)) (j, refl) w b' e in
      let done : left b' ≡ 0 = omega (arith, left_at (content b) (pos_part size) b' at) in
      judged_end b' judged done
      ∙ ap (λ t. check_digest t b'.hashed) want
      ∙ ap (check_digest b.want_digest) (all_read at done)
    where
      keep_want :
          (s : BlobStream) (need : ℕ)
          → s.want_digest ≡ b.want_digest
          → (read_full s need).1.want_digest ≡ b.want_digest
      keep_want = read_full_keeps (λ s. s.want_digest ≡ b.want_digest) (λ s n h. h)

      nothing : (x : Bytes) → length x ≡ 0 → x ≡ []
      nothing [] h = refl
      nothing (y ∷ ys) h = absurd (omega arith)

      all_read : AtOffset (content b) (pos_part size) b' → left b' ≡ 0 → b'.hashed ≡ content b
      all_read at z =
          sym (append-nil b'.hashed) ∙ ap (λ t. b'.hashed ++ t) (sym (nothing _ z)) ∙ at.whole
