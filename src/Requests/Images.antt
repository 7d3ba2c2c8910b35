-- ===== src/Requests/Images.antt =====
-- client-request/rust/src/lib.rs: the requests for images.
use dragonfly_sdk.Base.{ℕ, Bool, true, Option, none, List, [], Text, ℤ}
use dragonfly_sdk.Errors.{Result, ◌>>◌}
use dragonfly_sdk.Http.{default_proxy_rule_filtered_query_params}
use dragonfly_sdk.Requests.{
  Scope, default_scope, default_request_timeout, default_replicas, check_replicas,
  check_concurrency,
}

pub record PreheatImageRequest : Type 0 where
  pub image : Text
  pub username : Option Text
  pub password : Option Text
  pub platform : Option Text
  pub piece_length : Option ℕ
  pub tag : Option Text
  pub application : Option Text
  pub filtered_query_params : List Text
  pub content_for_calculating_task_id : Option Text
  pub enable_task_id_based_blob_digest : Bool
  pub priority : Option ℤ
  pub replicas : ℕ
  pub scope : Scope
  pub timeout : ℕ
  pub concurrent_task_count : ℕ
  pub client_cert : Option (List Text)

abbrev pub default_preheat_image_request : PreheatImageRequest
default_preheat_image_request = record {
  image = [];
  username = none;
  password = none;
  platform = none;
  piece_length = none;
  tag = none;
  application = none;
  filtered_query_params = default_proxy_rule_filtered_query_params;
  content_for_calculating_task_id = none;
  enable_task_id_based_blob_digest = true;
  priority = none;
  replicas = default_replicas;
  scope = default_scope;
  timeout = default_request_timeout;
  concurrent_task_count = 4;
  client_cert = none;
}

unfoldable pub validate_preheat_image : PreheatImageRequest → Result (Unit {0})
validate_preheat_image r = do check_replicas r.replicas; check_concurrency r.concurrent_task_count

pub record StatImageRequest : Type 0 where
  pub image : Text
  pub username : Option Text
  pub password : Option Text
  pub platform : Option Text
  pub piece_length : Option ℕ
  pub tag : Option Text
  pub application : Option Text
  pub filtered_query_params : List Text
  pub enable_task_id_based_blob_digest : Bool
  pub timeout : ℕ

abbrev pub default_stat_image_request : StatImageRequest
default_stat_image_request = record {
  image = [];
  username = none;
  password = none;
  platform = none;
  piece_length = none;
  tag = none;
  application = none;
  filtered_query_params = default_proxy_rule_filtered_query_params;
  enable_task_id_based_blob_digest = true;
  timeout = default_request_timeout;
}

pub record Layer : Type 0 where
  pub url : Text
  pub is_finished : Bool

pub record PeerImage : Type 0 where
  pub ip : Text
  pub hostname : Text
  pub cached_layers : List Layer

pub record StatImageResponse : Type 0 where
  pub layers : List Text
  pub peers : List PeerImage

pub record DeleteImageRequest : Type 0 where
  pub image : Text
  pub username : Option Text
  pub password : Option Text
  pub platform : Option Text
  pub piece_length : Option ℕ
  pub tag : Option Text
  pub application : Option Text
  pub filtered_query_params : List Text
  pub content_for_calculating_task_id : Option Text
  pub enable_task_id_based_blob_digest : Bool
  pub replicas : ℕ
  pub scope : Scope
  pub timeout : ℕ
  pub concurrent_task_count : ℕ

abbrev pub default_delete_image_request : DeleteImageRequest
default_delete_image_request = record {
  image = [];
  username = none;
  password = none;
  platform = none;
  piece_length = none;
  tag = none;
  application = none;
  filtered_query_params = default_proxy_rule_filtered_query_params;
  content_for_calculating_task_id = none;
  enable_task_id_based_blob_digest = true;
  replicas = default_replicas;
  scope = default_scope;
  timeout = default_request_timeout;
  concurrent_task_count = 4;
}

unfoldable pub validate_delete_image : DeleteImageRequest → Result (Unit {0})
validate_delete_image r = do check_replicas r.replicas; check_concurrency r.concurrent_task_count
