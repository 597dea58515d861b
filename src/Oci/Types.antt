-- ===== src/Oci/Types.antt =====
-- internal/oci/client.go: manifests, references, requests, and the stream of a response's body.
use embewi_core.Base.{ℕ, String, Bool, Option, List, Assoc}
use embewi_core.Base.Int.{ℤ}
use embewi_core.Api.Meta.{Bytes}

pub record FirmwareMeta : Type 0 where
  pub digest : String
  pub size : ℤ
  pub chip : String
  pub idf_version : String

pub record Descriptor : Type 0 where
  pub media_type : String
  pub digest : String
  pub size : ℤ
  pub annotations : Assoc String

pub record Manifest : Type 0 where
  pub schema_version : ℤ
  pub media_type : String
  pub config : Descriptor
  pub layers : List Descriptor
  pub annotations : Assoc String

pub record Ref : Type 0 where
  pub registry : Bytes
  pub repo : Bytes
  pub tag : Bytes

-- oci.Client: the credentials and the trusted key, `none` where no key is configured. Its
-- http.Client is the environment's.
pub record Client : Type 0 where
  pub username : String
  pub password : String
  pub trusted_pub_key : Option Bytes

-- how a body ends: io.EOF, or a read that fails
pub data ReadEnd : Type 0 where
  eof : ReadEnd
  broken : String → ReadEnd

-- An io.ReadCloser: the pieces in which the bytes arrive, how it ends, and whether the last piece
-- comes together with that end (`eager`) or before it. io.Reader allows both.
pub record Source : Type 0 where
  pub segments : List Bytes
  pub eager : Bool
  pub ending : ReadEnd

-- what is fetched: a manifest by tag, or a blob by digest
pub data Target : Type 0 where
  manifests : Bytes → Target
  blobs : String → Target

pub record OciRequest : Type 0 where
  pub scheme : String
  pub registry : Bytes
  pub repo : Bytes
  pub target : Target
  pub accept : List String
  pub basic_auth : Option (String × String)

pub record OciResponse : Type 0 where
  pub status_code : ℕ
  pub body : Source
