-- ===== src/Requests/Get.antt =====
-- client-request/rust/src/lib.rs: `GetRequest` and `GetResponse`.
pub mod Headers
use dragonfly_sdk.Base.{
  decimal, ℕ, suc, String, ◌⊎◌, inl, inr, Bool, true, false, ◌||◌, not, Option, none, some, List,
  [], ◌∷◌, ◌++◌, if◌then◌else◌, is_empty, Text, text, text_eq, ℤ, pos, negsuc,
}
use mathlib.Core.Option
use dragonfly_sdk.Errors.{Error, Result, ok, err, invalid_argument, fail_if, ◌>>=◌, ◌>>◌}
use dragonfly_sdk.Http.{HttpApi, default_proxy_rule_filtered_query_params}
use dragonfly_sdk.Url.{UrlApi, join}
use dragonfly_sdk.Requests.{default_request_timeout, default_replicas, check_replicas}

-- `to_string` of an `i32` and of a `bool`.
abbrev pub int_text : ℤ → Text
int_text (pos n) = decimal n
int_text (negsuc n) = b'-' ∷ decimal (suc n)

abbrev pub bool_text : Bool → Text
bool_text true = text "true"
bool_text false = text "false"

module _ (H : HttpApi) where
  pub record GetRequest : Type 0 where
    pub url : Text
    pub header : H.Headers
    pub piece_length : Option ℕ
    pub tag : Option Text
    pub application : Option Text
    pub filtered_query_params : List Text
    pub content_for_calculating_task_id : Option Text
    pub enable_task_id_based_blob_digest : Bool
    pub priority : Option ℤ
    pub replicas : ℕ
    pub timeout : ℕ
    pub client_cert : Option (List Text)

  abbrev pub default_get_request : GetRequest
  default_get_request = record {
    url = [];
    header = H.empty;
    piece_length = none;
    tag = none;
    application = none;
    filtered_query_params = default_proxy_rule_filtered_query_params;
    content_for_calculating_task_id = none;
    enable_task_id_based_blob_digest = true;
    priority = none;
    replicas = default_replicas;
    timeout = default_request_timeout;
    client_cert = none;
  }

  abbrev invalid_url : Text → Text → Error
  invalid_url url m = invalid_argument (text "invalid url " ++ url ++ text ": " ++ m)

  abbrev is_http : Text → Bool
  is_http scheme = text_eq scheme (text "http") || text_eq scheme (text "https")

  abbrev check_scheme : (U : UrlApi) → Text → Text ⊎ U.Url → Result (Unit {0})
  check_scheme U url (inl m) = err (invalid_url url m)
  check_scheme U url (inr u) =
      fail_if (not (is_http (U.scheme u)))
        (invalid_argument (text "url " ++ url ++ text " must be http or https"))

  unfoldable pub validate : UrlApi → GetRequest → Result (Unit {0})
  validate U r = do check_replicas r.replicas; check_scheme U r.url (U.parse r.url)

  -- `headers.insert(name, value.parse()?)`.
  abbrev pub set_header : String → String → Text → H.Headers → Result H.Headers
  set_header name what value h = elim (H.parse value) [
    | none ↦ err (invalid_argument (text "invalid " ++ text what ++ text ": " ++ H.parse_error))
    | some v ↦ ok (H.set (text name) v h)
  ]

  abbrev pub set_optional : String → String → Option Text → H.Headers → Result H.Headers
  set_optional name what none h = ok h
  set_optional name what (some value) h = set_header name what value h

  abbrev pub joined_params : List Text → Option Text
  joined_params params = if is_empty params then none else some (join (text ",") params)

  unfoldable pub proxy_headers : GetRequest → Result H.Headers
  proxy_headers r = do
    a ←
        set_optional "X-Dragonfly-Piece-Length" "piece length" (Option.map decimal r.piece_length)
          r.header
    b ← set_optional "X-Dragonfly-Tag" "tag" r.tag a
    c ← set_optional "X-Dragonfly-Application" "application" r.application b
    d ←
        set_optional "X-Dragonfly-Content-For-Calculating-Task-ID" "content for calculating task id"
          r.content_for_calculating_task_id c
    e ←
        set_header "X-Dragonfly-Enable-Task-ID-Based-Blob-Digest" "enable task id based blob digest"
          (bool_text r.enable_task_id_based_blob_digest) d
    f ← set_optional "X-Dragonfly-Priority" "priority" (Option.map int_text r.priority) e
    g ←
        set_optional "X-Dragonfly-Filtered-Query-Params" "filtered query params"
          (joined_params r.filtered_query_params) f
    ok (H.set (text "X-Dragonfly-Use-P2P") (text "true") g)

  -- A streamed body: its chunks, and the error that ends it early.
  pub record Body : Type 0 where
    pub chunks : List Text
    pub ending : Option Error

  pub record GetResponse : Type 0 where
    pub success : Bool
    pub header : H.Headers
    pub status_code : Option ℕ
    pub body : Option Body
