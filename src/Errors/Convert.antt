-- ===== src/Errors/Convert.antt =====
-- client-request/rust/src/errors.rs: errors from a gRPC status and from a proxy's response.
use dragonfly_sdk.Base.{
  ℕ, Bool, ◌&&◌, ◌^◌, Option, none, some, List, ◌++◌, flatten, leb, ltb, if◌then◌else◌, bind, ℤ,
  pos, negsuc, Text, text, text_eq, TextMap,
}
use dragonfly_sdk.Errors.{
  Error, request_timeout, backend_error, proxy_error, dfdaemon_error, tonic_status, Status, Code,
  deadline_exceeded,
}
use dragonfly_sdk.Http.{HttpApi, headermap_to_hashmap}

-- The error detail that a dfdaemon sends, with the origin's status as an `i32`.
pub record Backend : Type 0 where
  pub message : Text
  pub header : TextMap Text
  pub status_code : Option ℤ

-- `u16::try_from`.
unfoldable pub try_u16 : ℤ → Option ℕ
try_u16 (pos n) = if ltb n (2 ^ 16) then some n else none
try_u16 (negsuc n) = none

-- `StatusCode::from_u16`: three digits.
unfoldable pub status_from_u16 : ℕ → Option ℕ
status_from_u16 n = if leb 100 n && ltb n 1000 then some n else none

module _ (decode_backend : List ℕ → Option Backend) where
  status_error : Code → Status → Error
  status_error deadline_exceeded s = request_timeout s.message
  status_error _ s = tonic_status s

  unfoldable pub from_status : Status → Error
  unfolding status_error try_u16 status_from_u16
  from_status s = elim (decode_backend s.details) [
    | some backend ↦ backend_error (record {
      message = some backend.message;
      header = backend.header;
      status_code = bind (bind backend.status_code try_u16) status_from_u16;
    })
    | none ↦ status_error s.code s
  ]

-- A response: its body comes in chunks and ends well or by an error.
pub record BodyError : Type 0 where
  pub is_timeout : Bool
  pub message : Text

module _ (H : HttpApi) where
  pub record Response : Type 0 where
    pub status : ℕ
    pub headers : H.Headers
    pub content_length : Option ℕ
    pub chunks : List Text
    pub ending : Option BodyError

  -- The whole body, if it arrives.
  abbrev body_text : Response → Option Text
  body_text r = elim r.ending [
    | none ↦ some (H.decode r.headers (flatten r.chunks))
    | some e ↦ none
  ]

  abbrev typed_error : Option Text → TextMap Text → ℕ → Option Text → Error
  typed_error message header status none = proxy_error (record {
    message = some (text "unexpected status code from proxy: " ++ H.show_status status);
    header = header;
    status_code = some status;
  })
  typed_error message header status (some kind) =
      if text_eq kind (text "backend")
      then backend_error (record { message = message; header = header; status_code = some status })
      else if text_eq kind (text "proxy")
      then proxy_error (record { message = message; header = header; status_code = some status })
      else if text_eq kind (text "dfdaemon")
      then dfdaemon_error (record { message = message; header = header; status_code = some status })
      else proxy_error (record {
        message = some (text "unknown error type from proxy: " ++ kind);
        header = header;
        status_code = some status;
      })

  unfoldable pub from_response : Response → Error
  from_response r =
      typed_error (body_text r) (headermap_to_hashmap H r.headers) r.status
        (bind (H.get r.headers (text "X-Dragonfly-Error-Type")) H.to_str)
