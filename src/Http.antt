-- ===== src/Http.antt =====
-- client-request/rust/src/http.rs: the query parameters that a task id leaves out, and the
-- conversion of a header map. The header map itself is the http crate's, an argument here.
pub mod Params
use dragonfly_sdk.Base.{
  ℕ, ◌≡◌, Bool, true, false, Option, none, some, List, [], ◌∷◌, ◌++◌, map, if◌then◌else◌, Text,
  text, text_eq, TextMap, insert, contains,
}

-- What the code uses of the http crate and of reqwest's text decoding.
pub record HttpApi : Type 1 where
  pub Headers : Type 0
  pub empty : Headers
  pub get : Headers → Text → Option Text
  pub set : Text → Text → Headers → Headers
  pub entries : Headers → List (Text × Text)
  -- `HeaderValue::from_str`, and what it prints when it refuses.
  pub parse : Text → Option Text
  pub parse_error : Text
  -- `HeaderValue::to_str`.
  pub to_str : Text → Option Text
  -- The body of a response as text, in the charset that its headers name.
  pub decode : Headers → Text → Text
  pub show_status : ℕ → Text

abbrev pub s3_filtered_query_params : List Text
s3_filtered_query_params = map text (
    "X-Amz-Algorithm" ∷ "X-Amz-Credential" ∷ "X-Amz-Date" ∷ "X-Amz-Expires" ∷ "X-Amz-SignedHeaders"
    ∷ "X-Amz-Signature" ∷ "X-Amz-Security-Token" ∷ "X-Amz-User-Agent" ∷ [])

abbrev pub gcs_filtered_query_params : List Text
gcs_filtered_query_params = map text (
    "X-Goog-Algorithm" ∷ "X-Goog-Credential" ∷ "X-Goog-Date" ∷ "X-Goog-Expires"
    ∷ "X-Goog-SignedHeaders" ∷ "X-Goog-Signature" ∷ [])

abbrev pub oss_filtered_query_params : List Text
oss_filtered_query_params =
    map text ("OSSAccessKeyId" ∷ "Expires" ∷ "Signature" ∷ "SecurityToken" ∷ [])

abbrev pub obs_filtered_query_params : List Text
obs_filtered_query_params =
    map text ("AccessKeyId" ∷ "Signature" ∷ "Expires" ∷ "X-Obs-Date" ∷ "X-Obs-Security-Token" ∷ [])

abbrev pub cos_filtered_query_params : List Text
cos_filtered_query_params = map text (
    "q-sign-algorithm" ∷ "q-ak" ∷ "q-sign-time" ∷ "q-key-time" ∷ "q-header-list"
    ∷ "q-url-param-list" ∷ "q-signature" ∷ "x-cos-security-token" ∷ [])

abbrev pub containerd_filtered_query_params : List Text
containerd_filtered_query_params = map text ("ns" ∷ [])

-- The loop that keeps the first occurrence of each parameter.
unfoldable pub dedupe : List Text → List Text → List Text → List Text
dedupe visited params [] = params
dedupe visited params (p ∷ ps) = elim (contains p visited) [
  | true ↦ dedupe visited params ps
  | false ↦ dedupe (p ∷ visited) (params ++ p ∷ []) ps
]

unfoldable pub default_proxy_rule_filtered_query_params : List Text
unfolding dedupe
default_proxy_rule_filtered_query_params = dedupe [] [] (
    s3_filtered_query_params ++ gcs_filtered_query_params ++ oss_filtered_query_params
    ++ obs_filtered_query_params ++ cos_filtered_query_params ++ containerd_filtered_query_params)

module _ (H : HttpApi) where
  headers_loop : TextMap Text → List (Text × Text) → TextMap Text
  headers_loop hashmap [] = hashmap
  headers_loop hashmap ((k, v) ∷ rest) = elim (H.to_str v) [
    | none ↦ headers_loop hashmap rest
    | some s ↦ headers_loop (insert k s hashmap) rest
  ]

  unfoldable pub headermap_to_hashmap : H.Headers → TextMap Text
  unfolding headers_loop
  headermap_to_hashmap header = headers_loop [] (H.entries header)
