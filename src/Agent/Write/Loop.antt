-- ===== src/Agent/Write/Loop.antt =====
-- The loop of OTAWrite ends, and an invariant of its rounds holds when it returns nil.
use mathlib.Core.Path.{subst₂}
use embewi_core.Base.{
  Bool, true, false, if◌then◌else◌, ℕ, zero, suc, ◌+◌, ◌-◌, ◌≤◌, ◌<◌, String, ◌≡◌, ◌≢◌, refl,
  Option, none, some, arith, Result, ok, err, ltb, Bool-cases, inl, inr,
}
use embewi_core.Base.Int.{ℤ, pos_part}
use embewi_core.Api.Meta.{Bytes}
use embewi_core.Agent.Protocol.{Client}
use embewi_core.Agent.Chunk.{put_ota_chunk}
use embewi_core.Agent.Write.{Written, range_end, after_put, after_read, write_next, write_loop}
use embewi_core.Agent.Write.Ranges.{range_end_bounds}
use embewi_core.Oci.Blob.{BlobStream, read_full}
use embewi_core.World.Env.{Env}
use embewi_core.World.Action.{World, M, pure}

module _ ⦃env : Env⦄ (c : Client) (id digest : String) (size : ℤ) where
  abbrev Ends : M Written → Type 0
  Ends m = (w : World) → (m w).0 ≢ none

  after_put-Ends :
      (again : ℕ → BlobStream → M Written) (end : ℕ) (b : BlobStream) (r : Result (Unit {0}))
      → Ends (again (end + 1) b)
      → Ends (after_put again end b r)
  unfolding after_put
  after_put-Ends again end b (ok _) k w = k w
  after_put-Ends again end b (err e) k w = λ h. cc

  after_read-Ends :
      (again : ℕ → BlobStream → M Written) (start end : ℕ) (chunk : Option Bytes) (b : BlobStream)
      → ((b' : BlobStream) → Ends (again (end + 1) b'))
      → Ends (after_read c id digest size again start end chunk b)
  unfolding after_read
  after_read-Ends again start end none b k w = λ h. cc
  after_read-Ends again start end (some chunk) b k w =
      let (r, w') = put_ota_chunk c id digest size chunk start end w in
      after_put-Ends again end b r (k b) w'

  -- The loop of OTAWrite ends, whatever the device answers and the stream holds: with as many rounds of
  -- fuel as octets are left to send, it does not run out of fuel.
  pub write_loop-ne-none :
      (fuel start : ℕ) (b : BlobStream) (w : World)
      → pos_part size ≤ start + fuel
      → (write_loop c id digest size fuel start b w).0 ≢ none
  unfolding write_loop write_next
  write_loop-ne-none zero start b w h = elim (Bool-cases (ltb start (pos_part size))) [
    | inl p ↦ absurd (ground arith)
    | inr p ↦ rw p (λ e. cc)
  ]
  write_loop-ne-none (suc fuel) start b w h = elim (Bool-cases (ltb start (pos_part size))) [
    | inl p ↦ rw p (
        let (low, high) = range_end_bounds (pos_part size) start (ground arith) in
        after_read-Ends (write_loop c id digest size fuel) start (range_end (pos_part size) start) _
          _
          (λ b' w'.
            write_loop-ne-none fuel (range_end (pos_part size) start + 1) b' w' (omega arith))
          w)
    | inr p ↦ rw p (λ e. cc)
  ]

  module _ (Inv : ℕ → BlobStream → Type 0) where
    abbrev Leaves : M Written → Type 0
    Leaves m = (w : World) (b : BlobStream) → (m w).0 ≡ some (ok tt, b) → Inv (pos_part size) b

    after_put-Leaves :
        (again : ℕ → BlobStream → M Written) (end : ℕ) (b : BlobStream) (r : Result (Unit {0}))
        → Leaves (again (end + 1) b)
        → Leaves (after_put again end b r)
    unfolding after_put
    after_put-Leaves again end b (ok _) k w b' h = k w b' h
    after_put-Leaves again end b (err e) k w b' h = cc

    after_read-Leaves :
        (again : ℕ → BlobStream → M Written) (start end : ℕ) (chunk : Option Bytes) (b : BlobStream)
        → ((got : Bytes) → chunk ≡ some got → Leaves (again (end + 1) b))
        → Leaves (after_read c id digest size again start end chunk b)
    unfolding after_read
    after_read-Leaves again start end none b k w b' h = cc
    after_read-Leaves again start end (some chunk) b k w b' h =
        let (r, w') = put_ota_chunk c id digest size chunk start end w in
        after_put-Leaves again end b r (k chunk refl) w' b' h

    -- a round that goes on keeps the invariant
    abbrev pub KeepsOn : Type 0
    KeepsOn =
        (start : ℕ) (b : BlobStream) (got : Bytes)
        → start < pos_part size
        → Inv start b
        → let end = range_end (pos_part size) start in
          (read_full b (end - start + 1)).0 ≡ some got
          → Inv (end + 1) (read_full b (end - start + 1)).1

    Leaves-if :
        (t : Bool) (m n : M Written)
        → (t ≡ true → Leaves m)
        → (t ≡ false → Leaves n)
        → Leaves (if t then m else n)
    Leaves-if true m n km kn = km refl
    Leaves-if false m n km kn = kn refl

    Leaves-stop :
        (start : ℕ) (b : BlobStream)
        → start ≤ pos_part size
        → ltb start (pos_part size) ≡ false
        → Inv start b
        → Leaves (pure (some (ok tt, b)))
    Leaves-stop start b le stop inv w b' h =
        let e : start ≡ pos_part size = ground arith in subst₂ Inv e (ground arith) inv

    pub write_loop-Inv :
        KeepsOn
        → (fuel start : ℕ) (b : BlobStream) → start ≤ pos_part size
        → Inv start b
        → Leaves (write_loop c id digest size fuel start b)
    unfolding write_loop write_next
    write_loop-Inv keeps zero start b le inv =
        Leaves-if (ltb start (pos_part size)) _ _ (λ p w b' h. cc)
          (λ p. Leaves-stop start b le p inv)
    write_loop-Inv keeps (suc fuel) start b le inv =
        Leaves-if (ltb start (pos_part size)) _ _
          (λ p.
            let end = range_end (pos_part size) start in
            let more : start < pos_part size = ground arith in
            let (low, high) = range_end_bounds (pos_part size) start more in
            let next : end + 1 ≤ pos_part size = omega arith in
            after_read-Leaves (write_loop c id digest size fuel) start end _ _ (λ got e.
              write_loop-Inv keeps fuel (end + 1) (read_full b (end - start + 1)).1 next
                (keeps start b got more inv e)))
          (λ p. Leaves-stop start b le p inv)
