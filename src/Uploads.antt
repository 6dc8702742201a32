-- ===== src/Uploads.antt =====
-- packages/uploads/src: the data of bucket.ts, capabilities.ts and uploads.ts. Bytes are numbers, and
-- an offset is not negative. An error of a backend is a text.
pub mod Streams
pub mod Buckets
pub mod Uploader
pub mod Accounts
pub mod Breaking
pub mod Stored
pub mod Readback
mod Tests
use platform_ts.Prelude.{ℕ, String, ◌⊎◌, Bool, not, Option, List, length}

pub data UploadError : Type 0 where
  blob_not_found : String → UploadError
  signing_unsupported : String → UploadError
  circuit_broken : UploadError
  file_too_large : ℕ → Option ℕ → UploadError
  backend_error : String → UploadError

-- What is left of a stream.
pub data Source : Type 0 where
  done : Source
  errored : UploadError → Source
  chunk : List ℕ → Source → Source

pub data BlobBody : Type 0 where
  byte_body : List ℕ → BlobBody
  stream_body : Source → BlobBody

pub record SaveOptions : Type 0 where
  pub content_type : Option String
  pub cache_control : Option String

pub record Attributes : Type 0 where
  pub mod_time : ℕ
  pub content_type : Option String
  pub cache_control : Option String
  pub size : ℕ

pub record ObjectInfo : Type 0 where
  pub mod_time : ℕ
  pub path : String
  pub size : ℕ
  pub is_dir : Bool

abbrev pub Action : Type 0 → Type 0 → Type 0
Action W A = W → W × (A ⊎ UploadError)

-- No length is a negative one, and a listing is its objects and the error that ends it, if any.
pub record Bucket : Type 1 where
  pub World : Type 0
  pub write : String → BlobBody → SaveOptions → Action World Unit
  pub open_range : String → ℕ → Option ℕ → Action World Source
  pub delete : String → Action World Unit
  pub exists : String → Action World Bool
  pub attributes : String → Action World Attributes
  pub list : String → World → World × List ObjectInfo × Option UploadError
  pub signed_url : String → Action World String
