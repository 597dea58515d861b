-- ===== src/Oci/Blob/Reading.antt =====
-- Reading a BlobStream loses and reorders nothing, and hashes what it returns.
use mathlib.Core.Path.{subst}
use mathlib.Core.List.{append_assoc, append-nil}
use embewi_core.Base.{
  ℕ, ◌+◌, ◌-◌, ◌≤◌, ◌≡◌, refl, sym, ap, ◌∙◌, Option, none, some, List, [], ◌∷◌, ◌++◌, arith, leb,
  length, take, drop, slice, length-append, slice-append, length-take, take-append-drop, Bool-cases,
  inl, inr,
}
use embewi_core.Api.Meta.{Bytes}
use embewi_core.Oci.Types.{Source, ReadEnd}
use embewi_core.Oci.Blob.{BlobStream, read_pieces, read, read_until, read_full, or_stop}
use embewi_core.World.Env.{Env}

abbrev pub joined : List Bytes → Bytes
joined [] = []
joined (x ∷ xs) = x ++ joined xs

-- all the octets of a stream: those read, and those to come
abbrev pub content : BlobStream → Bytes
content b = b.hashed ++ joined b.source.segments

-- `b'` is `b` after `new` was read
pub record ReadsOn (b : BlobStream) (new : Bytes) (b' : BlobStream) : Type 0 where
  pub hashed_more : b'.hashed ≡ b.hashed ++ new
  pub content_kept : content b' ≡ content b

pub read_pieces_lem :
    (s : Source) (segs : List Bytes) (n : ℕ)
    → let (got, e, rest) = read_pieces s segs n in
      (got ++ joined rest ≡ joined segs) × (length got ≤ n)
unfolding read_pieces
read_pieces_lem s [] n = (refl, omega arith)
read_pieces_lem s (seg ∷ rest) n = elim (Bool-cases (leb (length seg) n)) [
  | inl p ↦ rw p (refl, ground arith)
  | inr p ↦ rw p (
    sym (append_assoc (take n seg) (drop n seg) (joined rest))
        ∙ ap (λ t. t ++ joined rest) (take-append-drop n seg),
    omega (arith, length-take n seg),
  )
]

module _ ⦃env : Env⦄ where
  pub read-ReadsOn :
      (b : BlobStream) (n : ℕ) → ReadsOn b (read b n).0 (read b n).2 × (length (read b n).0 ≤ n)
  unfolding read
  read-ReadsOn b n =
      let (whole, short) = read_pieces_lem b.source b.source.segments n in
      (
        record {
          hashed_more = refl;
          content_kept = append_assoc b.hashed _ _ ∙ ap (λ t. b.hashed ++ t) whole;
        },
        short,
      )

ReadsOn-refl : (b : BlobStream) → ReadsOn b [] b
ReadsOn-refl b = record { hashed_more = sym (append-nil b.hashed); content_kept = refl }

ReadsOn-trans :
    {a b c : BlobStream} {m n : Bytes} → ReadsOn a m b → ReadsOn b n c → ReadsOn a (m ++ n) c
ReadsOn-trans {a} {m = m} {n = n} p q = record {
  hashed_more = q.hashed_more ∙ ap (λ t. t ++ n) p.hashed_more ∙ append_assoc a.hashed m n;
  content_kept = q.content_kept ∙ p.content_kept;
}

-- what io.ReadFull's loop returns: the octets so far, and those that it read
pub record Gathers (b : BlobStream) (acc : Bytes) (need : ℕ)
    (r : Bytes × Option ReadEnd × BlobStream) : Type 0 where
  pub fresh : Bytes
  pub gathered : r.0 ≡ acc ++ fresh
  pub reads_on : ReadsOn b fresh r.2
  pub fits : length acc ≤ need → length r.0 ≤ need

Gathers-done :
    (b : BlobStream) (acc : Bytes) (need : ℕ) (e : Option ReadEnd) → Gathers b acc need (acc, e, b)
Gathers-done b acc need e = record {
  fresh = [];
  gathered = sym (append-nil acc);
  reads_on = ReadsOn-refl b;
  fits = λ h. h;
}

module _ ⦃env : Env⦄ where
  Gathers-read :
      (b : BlobStream) (acc : Bytes) (need : ℕ)
      → let (got, e, b') = read b (need - length acc) in Gathers b acc need (acc ++ got, e, b')
  Gathers-read b acc need =
      let (on, short) = read-ReadsOn b (need - length acc) in
      record {
        fresh = (read b (need - length acc)).0;
        gathered = refl;
        reads_on = on;
        fits = λ h. omega (arith, length-append acc (read b (need - length acc)).0);
      }

  Gathers-trans :
      (b b' : BlobStream) (acc got : Bytes) (need : ℕ) (e : Option ReadEnd)
      (r : Bytes × Option ReadEnd × BlobStream)
      → Gathers b acc need (acc ++ got, e, b')
      → Gathers b' (acc ++ got) need r
      → Gathers b acc need r
  Gathers-trans b b' acc got need e r p q = record {
    fresh = p.fresh ++ q.fresh;
    gathered = q.gathered ∙ ap (λ t. t ++ q.fresh) p.gathered ∙ append_assoc acc p.fresh q.fresh;
    reads_on = ReadsOn-trans p.reads_on q.reads_on;
    fits = λ h. q.fits (p.fits h);
  }

  Gathers-step :
      (b : BlobStream) (acc got : Bytes) (need : ℕ) (b' : BlobStream) (e : Option ReadEnd)
      (more : Bytes × Option ReadEnd × BlobStream)
      → Gathers b acc need (acc ++ got, e, b')
      → Gathers b' (acc ++ got) need more
      → Gathers b acc need (or_stop e more (acc ++ got) b')
  Gathers-step b acc got need b' none more p q = Gathers-trans b b' acc got need none more p q
  Gathers-step b acc got need b' (some x) more p q = p

  pub read_until-Gathers :
      (segs : List Bytes) (b : BlobStream) (need : ℕ) (acc : Bytes)
      → Gathers b acc need (read_until segs b need acc)
  unfolding read_until
  read_until-Gathers [] b need acc = elim (Bool-cases (leb need (length acc))) [
    | inl p ↦ rw p (Gathers-done b acc need none)
    | inr p ↦ rw p (Gathers-read b acc need)
  ]
  read_until-Gathers (seg ∷ rest) b need acc = elim (Bool-cases (leb need (length acc))) [
    | inl p ↦ rw p (Gathers-done b acc need none)
    | inr p ↦ rw p (
        let (got, e, b') = read b (need - length acc) in
        Gathers-step b acc got need b' e _ (Gathers-read b acc need)
          (read_until-Gathers rest b' need (acc ++ got)))
  ]

-- what a full read of `b` gives: the next stretch of the stream, all that was asked for
pub record IsNext (b : BlobStream) (need : ℕ) (chunk : Bytes) (b' : BlobStream) : Type 0 where
  pub stretch : chunk ≡ slice (content b) (length b.hashed) (length b.hashed + need)
  pub kept : content b' ≡ content b
  pub hashed : b'.hashed ≡ b.hashed ++ chunk
  pub complete : length chunk ≡ need

Gathers-IsNext :
    (b : BlobStream) (need : ℕ) (r : Bytes × Option ReadEnd × BlobStream)
    → Gathers b [] need r
    → need ≤ length r.0
    → IsNext b need r.0 r.2
Gathers-IsNext b need (got, e, b') g full =
    let on : b'.hashed ≡ b.hashed ++ got = rw g.gathered g.reads_on.hashed_more in
    let n : length got ≡ need = omega (arith, g.fits (omega arith)) in
    let rest : Bytes = joined b'.source.segments in
    let whole : b.hashed ++ (got ++ rest) ≡ content b =
      sym (append_assoc b.hashed got rest)
      ∙ ap (λ t. t ++ rest) (sym on)
      ∙ g.reads_on.content_kept in
    record {
      stretch =
          sym (slice-append b.hashed got rest)
          ∙ ap (λ t. slice t (length b.hashed) (length b.hashed + length got)) whole
          ∙ ap (λ m. slice (content b) (length b.hashed) (length b.hashed + m)) n;
      kept = g.reads_on.content_kept;
      hashed = on;
      complete = n;
    }

module _ ⦃env : Env⦄ where
  -- What io.ReadFull returns is the stretch of the stream's octets that follows those already read,
  -- and all that was asked for.
  pub read_full-IsNext :
      (b : BlobStream) (need : ℕ) (chunk : Bytes)
      → (read_full b need).0 ≡ some chunk
      → IsNext b need chunk (read_full b need).1
  unfolding read_full
  read_full-IsNext b need chunk h =
      let r = read_until b.source.segments b need [] in
      let full : need ≤ length r.0 = ground arith in
      let e : r.0 ≡ chunk = ground arith in
      subst (λ t. IsNext b need t r.2) e
        (Gathers-IsNext b need r (read_until-Gathers b.source.segments b need []) full)
