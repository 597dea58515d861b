-- ===== src/Oci/Trust.antt =====
-- What a resolved firmware is known to be, where a trusted key is configured.
use embewi_core.Base.{
  Message, wrap, ◌≡◌, refl, sym, ap, ◌∙◌, String, Bool, true, false, not, Option, none, some,
  Result, ok, err, Error, Assoc, lookup, if◌then◌else◌,
}
use embewi_core.Api.Meta.{Bytes}
use embewi_core.Oci.Types.{Client, FirmwareMeta, Descriptor, Manifest, Ref}
use embewi_core.Oci.Reference.{parse_ref}
use embewi_core.Oci.Registry.{
  firmware_layer, firmware_meta_from_layer, check_signature, verify_signature, signature_annotation,
  get_manifest, meta_of, then_meta, resolve_at, resolve_firmware,
}
use embewi_core.World.Env.{Env}
use embewi_core.World.Action.{World}

module _ ⦃env : Env⦄ where
  -- the annotations hold a signature of the digest by the key
  pub record IsSigned (key : Bytes) (annotations : Assoc String) (digest : String) : Type 0 where
    pub text : String
    pub signature : Bytes
    pub annotated : lookup signature_annotation annotations ≡ some text
    pub decoded : env.base64_decode text ≡ some signature
    pub verified : env.ed25519_verify key digest signature ≡ true

  Decoded : Bytes → String → Option Bytes → Type 0
  Decoded key digest d =
      (sig : Bytes) × ((d ≡ some sig) × (env.ed25519_verify key digest sig ≡ true))

  passed : (v : Bool) (e : Error) → (if not v then err e else ok (tt {0})) ≡ ok tt → v ≡ true
  passed true e h = refl
  passed false e h = absurd (cc)

  Decoded-ok :
      (key : Bytes) (digest : String) (d : Option Bytes) (e f : Error)
      → (elim d [
        | none ↦ err e
        | some sig ↦ if not (env.ed25519_verify key digest sig) then err f else ok (tt {0})
      ])
        ≡ ok tt
      → Decoded key digest d
  unfolding Decoded
  Decoded-ok key digest none e f h = absurd (cc)
  Decoded-ok key digest (some sig) e f h = (sig, (refl, passed _ f h))

  check_signature-IsSigned :
      (key : Bytes) (annotations : Assoc String) (digest : String) (o : Option String)
      → lookup signature_annotation annotations ≡ o
      → check_signature key o digest ≡ ok tt
      → IsSigned key annotations digest
  unfolding check_signature Decoded
  check_signature-IsSigned key annotations digest none e h = absurd (cc)
  check_signature-IsSigned key annotations digest (some text) e h =
      let (sig, (d, v)) = Decoded-ok key digest (env.base64_decode text) _ _ h in
      record { text = text; signature = sig; annotated = e; decoded = d; verified = v }

  configured :
      (k : Option Bytes) (key : Bytes) (o : Option String) (digest : String)
      → k ≡ some key
      → (elim k [ none ↦ ok (tt {0}) | some j ↦ check_signature j o digest ]) ≡ ok tt
      → check_signature key o digest ≡ ok tt
  configured none key o digest e h = absurd (cc)
  configured (some j) key o digest e h = cc

  verify_signature-IsSigned :
      (c : Client) (key : Bytes) (annotations : Assoc String) (digest : String)
      → c.trusted_pub_key ≡ some key
      → verify_signature c annotations digest ≡ ok tt
      → IsSigned key annotations digest
  unfolding verify_signature
  verify_signature-IsSigned c key annotations digest e h =
      check_signature-IsSigned key annotations digest (lookup signature_annotation annotations) refl
        (configured c.trusted_pub_key key _ digest e h)

  -- where the firmware comes from: a manifest, one of its layers, and a signature by the key
  pub record IsTrusted (key : Bytes) (meta : FirmwareMeta) : Type 0 where
    pub manifest : Manifest
    pub layer : Descriptor
    pub chosen : firmware_layer manifest ≡ some layer
    pub described : meta ≡ firmware_meta_from_layer layer manifest.annotations
    pub signed : IsSigned key manifest.annotations meta.digest

  signed_ok :
      (r : Result (Unit {0})) (m : Message) (found meta : FirmwareMeta)
      → (elim r [ err e ↦ err (wrap m e) | ok _ ↦ ok found ]) ≡ ok meta
      → (r ≡ ok tt) × (found ≡ meta)
  signed_ok (err e) m found meta h = absurd (cc)
  signed_ok (ok tt) m found meta h = (refl, cc)

  layer_ok :
      (c : Client) (m : Manifest) (o : Option Descriptor) (e : Error) (image : Message)
      (meta : FirmwareMeta)
      → (elim o [
        | none ↦ err e
        | some l ↦
            let found = firmware_meta_from_layer l m.annotations in
            elim (verify_signature c m.annotations found.digest) [
              | err e ↦ err (wrap image e)
              | ok _ ↦ ok found
            ]
      ])
        ≡ ok meta
      → (l : Descriptor) × ((o ≡ some l)
          × ((verify_signature c m.annotations (firmware_meta_from_layer l m.annotations).digest
                ≡ ok tt)
              × (firmware_meta_from_layer l m.annotations ≡ meta)))
  layer_ok c m none e image meta h = absurd (cc)
  layer_ok c m (some l) e image meta h = (l, (refl, signed_ok _ image _ meta h))

  meta_of-IsTrusted :
      (c : Client) (key image : Bytes) (m : Manifest) (meta : FirmwareMeta)
      → c.trusted_pub_key ≡ some key
      → meta_of c image m ≡ ok meta
      → IsTrusted key meta
  unfolding meta_of
  meta_of-IsTrusted c key image m meta e h =
      let (l, (chosen, (ok_is, is))) = layer_ok c m (firmware_layer m) _ _ meta h in
      record {
        manifest = m;
        layer = l;
        chosen = chosen;
        described = sym is;
        signed =
            verify_signature-IsSigned c key m.annotations meta.digest e
              (sym (ap (λ f. verify_signature c m.annotations f.digest) is) ∙ ok_is);
      }

  then_meta-IsTrusted :
      (c : Client) (key image : Bytes) (m : Result Manifest) (meta : FirmwareMeta)
      → c.trusted_pub_key ≡ some key
      → then_meta c image m ≡ ok meta
      → IsTrusted key meta
  then_meta-IsTrusted c key image (err e) meta t h = absurd (cc)
  then_meta-IsTrusted c key image (ok m) meta t h = meta_of-IsTrusted c key image m meta t h

  resolve_at-IsTrusted :
      (c : Client) (key image : Bytes) (r : Result Ref) (w : World) (meta : FirmwareMeta)
      → c.trusted_pub_key ≡ some key
      → (resolve_at c image r w).0 ≡ ok meta
      → IsTrusted key meta
  unfolding resolve_at
  resolve_at-IsTrusted c key image (err e) w meta t h = absurd (cc)
  resolve_at-IsTrusted c key image (ok r) w meta t h =
      then_meta-IsTrusted c key image (get_manifest c r w).0 meta t h

  -- Where a trusted key is configured, a firmware that ResolveFirmware returns is described by a layer
  -- of a manifest whose signature annotation is base64 of an Ed25519 signature, by that key, of the
  -- digest returned.
  pub resolve_firmware-IsTrusted :
      (c : Client) (key image : Bytes) (w : World) (meta : FirmwareMeta)
      → c.trusted_pub_key ≡ some key
      → (resolve_firmware c image w).0 ≡ ok meta
      → IsTrusted key meta
  unfolding resolve_firmware
  resolve_firmware-IsTrusted c key image = resolve_at-IsTrusted c key image (parse_ref image)
