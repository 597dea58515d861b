-- ===== src/Oci/Registry.antt =====
-- internal/oci/client.go: resolving a manifest, its signature, and opening a blob.
use embewi_core.Base.{
  String, not, Option, none, some, List, [], ◌∷◌, Result, ok, err, plain, str, number, bytes, ◌<>◌,
  wrap, sentinel, signature_missing, signature_invalid, eqb, ◌==◌, if◌then◌else◌, Assoc, lookup,
  or_empty,
}
use embewi_core.Api.Meta.{Bytes}
use embewi_core.Oci.Types.{
  Client, FirmwareMeta, Descriptor, Manifest, Ref, OciRequest, OciResponse, Target, manifests,
  blobs,
}
use embewi_core.Oci.Reference.{parse_ref, scheme}
use embewi_core.Oci.Blob.{BlobStream}
use embewi_core.World.Env.{Env}
use embewi_core.World.Action.{M, pure, ◌>>=◌, oci_do}

abbrev pub media_type_firmware_bin : String
media_type_firmware_bin = "application/vnd.embewi.firmware.bin"

abbrev pub signature_annotation : String
signature_annotation = "embewi.io/signature"

-- the annotation of the layer, or of the manifest where the layer has none
abbrev annotation : String → Assoc String → Assoc String → String
annotation key layer manifest =
    let own = or_empty (lookup key layer) in
    if own == "" then or_empty (lookup key manifest) else own

unfoldable pub firmware_meta_from_layer : Descriptor → Assoc String → FirmwareMeta
unfolding lookup
firmware_meta_from_layer l manifest_annotations = record {
  digest = l.digest;
  size = l.size;
  chip = annotation "embewi.io/chip" l.annotations manifest_annotations;
  idf_version = annotation "embewi.io/idf-version" l.annotations manifest_annotations;
}

-- the first layer of the firmware's media type
unfoldable pub typed_layer : List Descriptor → Option Descriptor
typed_layer [] = none
typed_layer (l ∷ ls) = if l.media_type == media_type_firmware_bin then some l else typed_layer ls

abbrev pub or_first : List Descriptor → Option Descriptor → Option Descriptor
or_first layers (some l) = some l
or_first [] none = none
or_first (l ∷ ls) none = some l

unfoldable pub firmware_layer : Manifest → Option Descriptor
unfolding typed_layer
firmware_layer m = or_first m.layers (typed_layer m.layers)

module _ ⦃env : Env⦄ where
  unfoldable pub check_signature : Bytes → Option String → String → Result (Unit {0})
  check_signature key none digest = err (sentinel signature_missing)
  check_signature key (some sig_b64) digest = elim (env.base64_decode sig_b64) [
    | none ↦ err (
        wrap (str "annotation " <> str signature_annotation <> str " non décodable en base64")
          (sentinel signature_invalid))
    | some sig ↦
        if not (env.ed25519_verify key digest sig) then err (sentinel signature_invalid) else ok tt
  ]

  unfoldable pub verify_signature : Client → Assoc String → String → Result (Unit {0})
  unfolding check_signature lookup
  verify_signature c annotations digest = elim c.trusted_pub_key [
    | none ↦ ok tt
    | some key ↦ check_signature key (lookup signature_annotation annotations) digest
  ]

  -- SetBasicAuth where a user name is configured
  abbrev request : Client → Ref → Target → List String → OciRequest
  request c r target accept = record {
    scheme = scheme r.registry;
    registry = r.registry;
    repo = r.repo;
    target = target;
    accept = accept;
    basic_auth = if c.username == "" then none else some (c.username, c.password);
  }

  unfoldable pub manifest_of : Result OciResponse → Result Manifest
  manifest_of (err e) = err (wrap (str "GET manifeste") e)
  manifest_of (ok resp) =
      if eqb resp.status_code 200
      then (elim (env.decode_manifest resp.body) [
        | err e ↦ err (wrap (str "décodage manifeste") e)
        | ok m ↦ ok m
      ])
      else err (plain (str "GET manifeste → HTTP " <> number resp.status_code))

  unfoldable pub get_manifest : Client → Ref → M (Result Manifest)
  unfolding manifest_of scheme
  get_manifest c r = do
    resp ← oci_do (
        request c r (manifests r.tag) (
          "application/vnd.oci.image.manifest.v1+json"
          ∷ "application/vnd.oci.artifact.manifest.v1+json"
          ∷ "application/vnd.docker.distribution.manifest.v2+json" ∷ []))
    pure (manifest_of resp)

  -- the firmware that a manifest describes, once its signature is checked
  unfoldable pub meta_of : Client → Bytes → Manifest → Result FirmwareMeta
  unfolding verify_signature firmware_layer firmware_meta_from_layer
  meta_of c image m = elim (firmware_layer m) [
    | none ↦ err (plain (str "aucune layer trouvée dans " <> bytes image))
    | some l ↦
        let meta = firmware_meta_from_layer l m.annotations in
        elim (verify_signature c m.annotations meta.digest) [
          | err e ↦ err (wrap (str "image " <> bytes image) e)
          | ok _ ↦ ok meta
        ]
  ]

  abbrev pub then_meta : Client → Bytes → Result Manifest → Result FirmwareMeta
  then_meta c image (err e) = err e
  then_meta c image (ok m) = meta_of c image m

  unfoldable pub resolve_at : Client → Bytes → Result Ref → M (Result FirmwareMeta)
  unfolding get_manifest meta_of
  resolve_at c image (err e) = pure (err e)
  resolve_at c image (ok r) = do m ← get_manifest c r; pure (then_meta c image m)

  unfoldable pub resolve_firmware : Client → Bytes → M (Result FirmwareMeta)
  unfolding parse_ref resolve_at
  resolve_firmware c image = resolve_at c image (parse_ref image)

  unfoldable pub stream_of : String → Result OciResponse → Result BlobStream
  stream_of digest (err e) = err (wrap (str "GET blob " <> str digest) e)
  stream_of digest (ok resp) =
      if eqb resp.status_code 200
      then ok (record { source = resp.body; hashed = []; want_digest = digest; mismatch = none })
      else err (plain (str "GET blob " <> str digest <> str " → HTTP " <> number resp.status_code))

  unfoldable pub stream_at : Client → String → Result Ref → M (Result BlobStream)
  unfolding stream_of scheme
  stream_at c digest (err e) = pure (err e)
  stream_at c digest (ok r) = do
    resp ← oci_do (request c r (blobs digest) [])
    pure (stream_of digest resp)

  unfoldable pub stream_blob : Client → Bytes → String → M (Result BlobStream)
  unfolding parse_ref stream_at
  stream_blob c image digest = stream_at c digest (parse_ref image)
