-- ===== src/HttpClient.antt =====
-- packages/httpclient/src: the data of httpclient.ts and config.ts, and what the client is given.
-- `Headers` is its map from names in lower case to values. A body that `fetch` takes as it is and
-- the text of a response are texts. Spans and logs are left out.
pub mod Requests
pub mod Responses
pub mod Fetch
pub mod Headers
pub mod Attempts
pub mod Settles
mod Tests
use platform_ts.Prelude.{ℕ, String, ◌⊎◌, Bool, not, Option, List, map, length}
use platform_ts.OrderedMap.{Map}
use platform_ts.Retry.{RetryConfig}

pub data HttpMethod : Type 0 where
  get_method post_method put_method patch_method delete_method : HttpMethod

pub record HttpClientConfig : Type 0 where
  pub base_url : Option String
  pub headers : List (String × String)
  pub timeout_ms : ℕ
  pub retry : Option RetryConfig

-- `query` has what `String` gives for its values; a signal of the caller's is a number.
pub record RequestOptions : Type 0 where
  pub headers : Option (List (String × String))
  pub query : Option (List (String × String))
  pub timeout_ms : Option ℕ
  pub signal : Option ℕ
  pub throw_on_error : Bool
  pub idempotent : Option Bool

pub data Body (Json : Type 0) : Type 0 where
  body_init : String → Body Json
  json_body : Json → Body Json

pub record HttpRequest (Json : Type 0) : Type 0 where
  pub method : HttpMethod
  pub url : String
  pub body : Option (Body Json)
  pub options : RequestOptions

-- A timeout's signal has the time at which it was made and its length.
pub data Signal : Type 0 where
  caller_signal : ℕ → Signal
  timeout_signal : ℕ → ℕ → Signal
  any_signal : Signal → Signal → Signal

pub record RequestInit : Type 0 where
  pub method : HttpMethod
  pub headers : Map String
  pub body : Option String

-- A `Response` of `fetch`; `body` is what its `text` gives, which may reject.
pub record RawResponse (Err : Type 0) : Type 0 where
  pub ok : Bool
  pub status : ℕ
  pub status_text : String
  pub headers : Map String
  pub body : String ⊎ Err

pub data Data (Json : Type 0) : Type 0 where
  undefined_data : Data Json
  json_data : Json → Data Json
  text_data : String → Data Json

-- `parsed` is the result of `json` once it has one, which for an empty body is undefined.
pub record HttpResponse (Json : Type 0) : Type 0 where
  pub ok : Bool
  pub status : ℕ
  pub status_text : String
  pub headers : Map String
  pub data_of : Data Json
  pub body_text : String
  pub parsed : Option (Option Json)

-- What a request rejects with.
pub data Failure (Json Err : Type 0) : Type 0 where
  thrown : Err → Failure Json Err
  http_error : HttpResponse Json → Failure Json Err

-- The status that the metrics of a request are tagged with.
pub data Tag : Type 0 where
  status_tag : ℕ → Tag
  error_tag : Tag

-- The runtime's URL, JSON, `fetch`, clocks and signals, and what the trace context sets on a
-- request's headers. `header` gives a header's value as `Headers` normalises it, or the error that it
-- throws for a name or a value that is not valid.
pub record Platform : Type 1 where
  pub Url : Type 0
  pub Json : Type 0
  pub Err : Type 0
  pub World : Type 0
  pub new_url : String → Option String → Url ⊎ Err
  pub set_param : String → String → Url → Url
  pub href : Url → String
  pub stringify : Json → Option String ⊎ Err
  pub parse : String → Json ⊎ Err
  pub header : String → String → String ⊎ Err
  pub trace : World → List (String × String)
  pub fetch : String → RequestInit → Option Signal → World → World × (RawResponse Err ⊎ Err)
  pub clock : World → ℕ
  pub now : World → World × ℕ
  pub random : World → World × ℕ
  pub sleep : Option ℕ → ℕ → World → World × Option Err
  pub aborted : ℕ → World → Option Err
