-- ===== src/Oci/Blob/Verdict.antt =====
-- When BlobStream.Err speaks: the digest is compared at the end of the stream, and only there.
use embewi_core.Base.{
  ℕ, ◌+◌, ◌-◌, ◌<◌, String, Bool, true, false, ◌≡◌, ◌≢◌, refl, ap, ◌∙◌, Option, none, some, Error,
  List, [], ◌∷◌, ◌++◌, arith, leb, length, if◌then◌else◌, All, drop, length-append, length-drop,
  Bool-cases, inl, inr, ◌⊎◌,
}
use mathlib.Core.List.{append-nil}
use embewi_core.Api.Meta.{Bytes}
use embewi_core.Oci.Types.{Source, ReadEnd, eof}
use embewi_core.Oci.Blob.{
  or_stop, BlobStream, read_pieces, check_digest, mismatch_after, read, read_until, read_full,
}
use embewi_core.Oci.Blob.Reading.{joined, ReadsOn, read-ReadsOn}
use embewi_core.World.Env.{Env}

-- the octets still to come
abbrev pub left : BlobStream → ℕ
left b = length (joined b.source.segments)

left-ReadsOn : {b b' : BlobStream} {new : Bytes} → ReadsOn b new b' → left b ≡ length new + left b'
left-ReadsOn {b} {b'} {new} on = omega (
  arith,
  length-append b.hashed (joined b.source.segments),
  length-append b'.hashed (joined b'.source.segments),
  length-append b.hashed new,
  ap length on.hashed_more,
  ap length on.content_kept,
)

read_pieces_quiet :
    (s : Source) (segs : List Bytes) (n : ℕ)
    → 0 < length (joined (read_pieces s segs n).2)
    → (read_pieces s segs n).1 ≡ none
unfolding read_pieces
read_pieces_quiet s [] n h = absurd (omega arith)
read_pieces_quiet s (seg ∷ []) n h = ground arith
read_pieces_quiet s (seg ∷ x ∷ rest) n h = ground arith

module _ ⦃env : Env⦄ where
  mismatch_after-none :
      (want : String) (seen : Bytes) (old : Option Error) (e : Option ReadEnd)
      → e ≡ none
      → mismatch_after want seen old e ≡ old
  mismatch_after-none want seen old none h = refl
  mismatch_after-none want seen old (some x) h = cc

  -- a read after which octets are left finds no mismatch
  read_quiet : (b : BlobStream) (n : ℕ) → 0 < left (read b n).2 → (read b n).2.mismatch ≡ b.mismatch
  unfolding read
  read_quiet b n h =
      mismatch_after-none b.want_digest _ b.mismatch _
        (read_pieces_quiet b.source b.source.segments n h)

  module _ (P : BlobStream → Type 0) where
    keeps_if :
        (t : Bool) (x y : Bytes × Option ReadEnd × BlobStream)
        → P x.2
        → P y.2
        → P (if t then x else y).2
    keeps_if true x y p q = p
    keeps_if false x y p q = q

    keeps_end :
        (e : Option ReadEnd) (x : Bytes × Option ReadEnd × BlobStream) (got : Bytes)
        (b : BlobStream)
        → P x.2
        → P b
        → P (or_stop e x got b).2
    keeps_end none x got b p q = p
    keeps_end (some r) x got b p q = q

    module _ (step : (b : BlobStream) (n : ℕ) → P b → P (read b n).2) where
      read_until_keeps :
          (segs : List Bytes) (b : BlobStream) (need : ℕ) (acc : Bytes)
          → P b
          → P (read_until segs b need acc).2
      unfolding read_until
      read_until_keeps [] b need acc p =
          keeps_if (leb need (length acc)) _ _ p (step b (need - length acc) p)
      read_until_keeps (seg ∷ rest) b need acc p =
          let (got, e, b') = read b (need - length acc) in
          let p' : P b' = step b (need - length acc) p in
          keeps_if (leb need (length acc)) _ _ p
            (keeps_end e _ _ b' (read_until_keeps rest b' need (acc ++ got) p') p')

      -- what each read keeps, a full read keeps
      pub read_full_keeps : (b : BlobStream) (need : ℕ) → P b → P (read_full b need).1
      unfolding read_full
      read_full_keeps b need p = read_until_keeps b.source.segments b need [] p

  -- while octets are left, no mismatch was found
  abbrev pub IsQuiet : BlobStream → Type 0
  IsQuiet b = 0 < left b → b.mismatch ≡ none

  pub read_full-IsQuiet : (b : BlobStream) (need : ℕ) → IsQuiet b → IsQuiet (read_full b need).1
  read_full-IsQuiet =
      read_full_keeps IsQuiet
        (λ b n q h. read_quiet b n h ∙ q (omega (arith, left-ReadsOn (read-ReadsOn b n).0)))

  abbrev pub PiecesNonempty : List Bytes → Type 0
  PiecesNonempty = All (λ x. x ≢ [])

  abbrev pub verdict : List Bytes → String → Bytes → Option Error
  verdict [] want seen = check_digest want seen
  verdict (x ∷ xs) want seen = none

  -- A stream whose last piece comes with io.EOF, as net/http's body of known length does: a mismatch
  -- was looked for as soon as its pieces were used up.
  pub record IsJudged (b : BlobStream) : Type 0 where
    pub eager : b.source.eager ≡ true
    pub ending : b.source.ending ≡ eof
    pub pieces : PiecesNonempty b.source.segments
    pub judged : b.mismatch ≡ verdict b.source.segments b.want_digest b.hashed

  ne-nil-drop : (n : ℕ) (x : Bytes) → leb (length x) n ≡ false → drop n x ≢ []
  ne-nil-drop n x h e = omega (arith, ap length e, length-drop n x, leb_false (length x) n h)
    where
      leb_false : (a b : ℕ) → leb a b ≡ false → b < a
      leb_false a b h = ground arith

  -- at io.EOF the verdict is that of the digest
  mismatch_after-eof :
      (want : String) (seen : Bytes) (old : Option Error) (e : ReadEnd)
      → e ≡ eof
      → (old ≡ none) ⊎ (old ≡ check_digest want seen)
      → mismatch_after want seen old (some e) ≡ check_digest want seen
  mismatch_after-eof want seen old e h k = ground arith

  read_pieces_judged :
      (s : Source) (segs : List Bytes) (n : ℕ) (want : String) (seen : Bytes) (old : Option Error)
      → s.eager ≡ true
      → s.ending ≡ eof
      → PiecesNonempty segs
      → old ≡ verdict segs want seen
      → let (got, end, rest) = read_pieces s segs n in
        PiecesNonempty rest
        × (mismatch_after want (seen ++ got) old end ≡ verdict rest want (seen ++ got))
  unfolding read_pieces
  read_pieces_judged s [] n want seen old e f p q =
      (tt, mismatch_after-eof want (seen ++ []) old s.ending f (inr (rw append-nil q)))
  read_pieces_judged s (seg ∷ []) n want seen old e f p q = elim (Bool-cases (leb (length seg) n)) [
    | inl h ↦ rw (h, e) (tt, mismatch_after-eof want (seen ++ seg) old s.ending f (inl q))
    | inr h ↦ rw h ((ne-nil-drop n seg h, tt), q)
  ]
  read_pieces_judged s (seg ∷ x ∷ rest) n want seen old e f p q =
      elim (Bool-cases (leb (length seg) n)) [
        | inl h ↦ rw h (p.1, q)
        | inr h ↦ rw h ((ne-nil-drop n seg h, p.1), q)
      ]

  pub read_full-IsJudged : (b : BlobStream) (need : ℕ) → IsJudged b → IsJudged (read_full b need).1
  unfolding read
  read_full-IsJudged = read_full_keeps IsJudged read-IsJudged
    where
      read-IsJudged : (b : BlobStream) (n : ℕ) → IsJudged b → IsJudged (read b n).2
      read-IsJudged b n j =
          let (pieces, judged) =
            read_pieces_judged b.source b.source.segments n b.want_digest b.hashed b.mismatch
              j.eager j.ending j.pieces j.judged in
          record { eager = j.eager; ending = j.ending; pieces = pieces; judged = judged }

  -- no piece is left of a judged stream of which no octet is left
  pub judged_end :
      (b : BlobStream) → IsJudged b → left b ≡ 0 → b.mismatch ≡ check_digest b.want_digest b.hashed
  judged_end b j h = j.judged ∙ none_left b.source.segments j.pieces h
    where
      none_left :
          (segs : List Bytes)
          → PiecesNonempty segs
          → length (joined segs) ≡ 0
          → verdict segs b.want_digest b.hashed ≡ check_digest b.want_digest b.hashed
      none_left [] p z = refl
      none_left ([] ∷ rest) p z = absurd (p.0 refl)
      none_left ((y ∷ ys) ∷ rest) p z = absurd (omega arith)
