-- ===== src/Proxy/Dfdaemon.antt =====
-- client-request/rust/src/lib.rs: what `preheat` and `delete` ask of the dfdaemon of a seed peer, and
-- the gRPC clients and the join set, which are external.
use dragonfly_sdk.Base.{ℕ, ◌⊎◌, Bool, Option, List, Text, TextMap, ℤ}
use dragonfly_sdk.Errors.{Result, Status}
use dragonfly_sdk.Errors.Convert.{Backend}
use dragonfly_sdk.Net.{IpAddr}

-- The download that a preheat asks for. Its type and scheduling policy are constants.
pub record Download : Type 0 where
  pub url : Text
  pub tag : Option Text
  pub application : Option Text
  pub priority : ℤ
  pub filtered_query_params : List Text
  pub request_header : TextMap Text
  pub piece_length : Option ℕ
  pub timeout : ℕ
  pub content_for_calculating_task_id : Option Text
  pub remote_ip : Option Text
  pub enable_task_id_based_blob_digest : Bool

pub record DeleteTask : Type 0 where
  pub task_id : Text
  pub remote_ip : Option Text

-- What a stream of messages that ends comes to: all of them, or a status that ends it early. A stream
-- that stays open without an end keeps its call waiting; such runs are outside the model.
pub data Stream : Type 0 where
  finished : Stream
  broken : Status → Stream

-- The external code. `Net` is what a task sees of the network.
pub record Dfdaemon : Type 1 where
  pub Net : Type 0
  pub Channel : Type 0
  pub timer : ℕ → Net → Net
  -- `Priority::Level6`.
  pub level6 : ℤ
  pub local_ip : Option IpAddr
  pub local_ipv6 : Option IpAddr
  pub decode_backend : List ℕ → Option Backend
  -- `Duration::try_from` and `Channel::from_shared` may refuse.
  pub try_duration : ℕ → Option Text
  pub from_shared : Text → Option Text
  pub connect : Text → ℕ → Net → Net × (Text ⊎ Channel)
  pub download_task : Channel → Download → Net → Net × (Status ⊎ Stream)
  pub delete_task : Channel → DeleteTask → Net → Net × Option Status
  -- The order in which the tasks of a join set finish.
  pub joined : List (Result (Unit {0})) → List (Result (Unit {0}))
