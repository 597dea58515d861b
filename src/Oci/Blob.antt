-- ===== src/Oci/Blob.antt =====
-- internal/oci/client.go, BlobStream: the bytes read are hashed, and compared with the wanted digest
-- when a read meets the end. `read_full` is io.ReadFull.
pub mod Reading
pub mod Verdict
use Prim.Native.String.{◌++◌}
use mathlib.Core.List.{◌++◌ as append}
use embewi_core.Base.{
  ℕ, ◌-◌, String, Option, none, some, List, [], ◌∷◌, Error, wrap, sentinel, blob_digest_mismatch,
  str, number, ◌<>◌, leb, ◌==◌, if◌then◌else◌, length, take, drop,
}
use embewi_core.Api.Meta.{Bytes}
use embewi_core.Oci.Types.{Source, ReadEnd, eof}
use embewi_core.World.Env.{Env}

-- `hashed` is what the hash was fed, `read` of the source its length
pub record BlobStream : Type 0 where
  pub source : Source
  pub hashed : Bytes
  pub want_digest : String
  pub mismatch : Option Error

-- the end comes with the last piece if the source is eager
abbrev pub end_after : Source → List Bytes → Option ReadEnd
end_after s (seg ∷ rest) = none
end_after s [] = if s.eager then some s.ending else none

-- one Read into a buffer of `n` bytes: what it returns, and the source after it
unfoldable pub read_pieces : Source → List Bytes → ℕ → Bytes × Option ReadEnd × List Bytes
read_pieces s [] n = ([], some s.ending, [])
read_pieces s (seg ∷ rest) n =
    if leb (length seg) n
    then (seg, end_after s rest, rest)
    else (take n seg, none, drop n seg ∷ rest)

-- go on, or stop at an error
abbrev pub or_stop :
    Option ReadEnd
    → Bytes × Option ReadEnd × BlobStream
    → Bytes
    → BlobStream
    → Bytes × Option ReadEnd × BlobStream
or_stop none more acc b = more
or_stop (some e) more acc b = (acc, some e, b)

module _ ⦃env : Env⦄ where
  -- the test that BlobStream.Read makes at io.EOF
  unfoldable pub check_digest : String → Bytes → Option Error
  check_digest want seen =
      let got = "sha256:" ++ env.sha256_hex seen in
      if got == want
      then none
      else some (wrap (str want <> str got <> number (length seen)) (sentinel blob_digest_mismatch))

  abbrev pub mismatch_after : String → Bytes → Option Error → Option ReadEnd → Option Error
  mismatch_after want seen old (some eof) = elim (check_digest want seen) [
    | none ↦ old
    | some e ↦ some e
  ]
  mismatch_after want seen old _ = old

  -- (b *BlobStream) Read
  unfoldable pub read : BlobStream → ℕ → Bytes × Option ReadEnd × BlobStream
  unfolding read_pieces check_digest
  read b n =
      let (got, end, rest) = read_pieces b.source b.source.segments n in
      let seen = append b.hashed got in
      (
        got,
        end,
        record b {
          source = record b.source { segments = rest };
          hashed = seen;
          mismatch = mismatch_after b.want_digest seen b.mismatch end;
        },
      )

  -- io.ReadFull: read until `need` bytes are there or a read fails. A piece is used up by each read
  -- but the last, so the pieces bound the loop.
  unfoldable pub read_until :
      List Bytes → BlobStream → ℕ → Bytes → Bytes × Option ReadEnd × BlobStream
  unfolding read
  read_until [] b need acc =
      if leb need (length acc)
      then (acc, none, b)
      else (let (got, end, b') = read b (need - length acc) in (append acc got, end, b'))
  read_until (seg ∷ rest) b need acc =
      let (got, end, b') = read b (need - length acc) in
      let more = read_until rest b' need (append acc got) in
      if leb need (length acc) then (acc, none, b) else or_stop end more (append acc got) b'

  -- the bytes if all `need` came, whatever the last read said; else the end that was met
  unfoldable pub read_full : BlobStream → ℕ → Option Bytes × BlobStream
  unfolding read_until
  read_full b need =
      let (got, end, b') = read_until b.source.segments b need [] in
      (if leb need (length got) then some got else none, b')

  -- (b *BlobStream) Err
  unfoldable pub stream_err : BlobStream → Option Error
  stream_err b = b.mismatch
