-- ===== src/Requests/Files.antt =====
-- client-request/rust/src/lib.rs: `PreheatRequest` and `DeleteRequest`.
use dragonfly_sdk.Base.{ℕ, Bool, true, Option, none, List, [], Text, ℤ}
use dragonfly_sdk.Errors.{Result}
use dragonfly_sdk.Http.{HttpApi, default_proxy_rule_filtered_query_params}
use dragonfly_sdk.Requests.{
  Scope, default_scope, default_request_timeout, default_replicas, check_replicas,
}

module _ (H : HttpApi) where
  pub record PreheatRequest : Type 0 where
    pub url : Text
    pub header : H.Headers
    pub piece_length : Option ℕ
    pub tag : Option Text
    pub application : Option Text
    pub filtered_query_params : List Text
    pub content_for_calculating_task_id : Option Text
    pub enable_task_id_based_blob_digest : Bool
    pub priority : Option ℤ
    pub replicas : ℕ
    pub scope : Scope
    pub timeout : ℕ
    pub client_cert : Option (List Text)

  abbrev pub default_preheat_request : PreheatRequest
  default_preheat_request = record {
    url = [];
    header = H.empty;
    piece_length = none;
    tag = none;
    application = none;
    filtered_query_params = default_proxy_rule_filtered_query_params;
    content_for_calculating_task_id = none;
    enable_task_id_based_blob_digest = true;
    priority = none;
    replicas = default_replicas;
    scope = default_scope;
    timeout = default_request_timeout;
    client_cert = none;
  }

  unfoldable pub validate_preheat : PreheatRequest → Result (Unit {0})
  validate_preheat r = check_replicas r.replicas

pub record DeleteRequest : Type 0 where
  pub url : Text
  pub piece_length : Option ℕ
  pub tag : Option Text
  pub application : Option Text
  pub filtered_query_params : List Text
  pub content_for_calculating_task_id : Option Text
  pub enable_task_id_based_blob_digest : Bool
  pub replicas : ℕ
  pub scope : Scope
  pub timeout : ℕ

abbrev pub default_delete_request : DeleteRequest
default_delete_request = record {
  url = [];
  piece_length = none;
  tag = none;
  application = none;
  filtered_query_params = default_proxy_rule_filtered_query_params;
  content_for_calculating_task_id = none;
  enable_task_id_based_blob_digest = true;
  replicas = default_replicas;
  scope = default_scope;
  timeout = default_request_timeout;
}

unfoldable pub validate_delete : DeleteRequest → Result (Unit {0})
validate_delete r = check_replicas r.replicas
