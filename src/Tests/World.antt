-- ===== src/Tests/World.antt =====
-- Simple implementations of the external code, with its documented behaviour.
use dragonfly_sdk.Base.{
  decimal, ℕ, zero, suc, ◌+◌, ◌-◌, ◌/◌, ◌%◌, ◌≡◌, refl, ◌⊎◌, inr, true, false, Option, none, some,
  List, [], ◌∷◌, ◌++◌, arith, ltb, if◌then◌else◌, unwrap_or, length, take, Text, text, contains,
  TextMap, lookup, insert, pos, split_once,
}
use dragonfly_sdk.Errors.Convert.{Response}
use dragonfly_sdk.Http.{HttpApi}
use dragonfly_sdk.Url.{UrlApi}
use dragonfly_sdk.Ids.{IdApi}
use dragonfly_sdk.Net.{v4}
use dragonfly_sdk.Retry.{RetryPolicy}
use dragonfly_sdk.Tests.Retries.{plain_retrier}
use dragonfly_sdk.Selector.{HashRing, Host, SeedPeer, SeedPeers, empty_seed_peers, update}
use dragonfly_sdk.Selector.Ring.{RingLaws}
use dragonfly_sdk.Selector.Synced.{IsSynced, empty-IsSynced, update-IsSynced}
use dragonfly_sdk.Proxy.{Env, Session, Proxy, TransportError}

-- A ring with one virtual node for each host, read from the first node for every key.
abbrev pub plain_window : List Text → Text → ℕ → Option (List Text)
plain_window [] k w = none
plain_window (n ∷ ns) k w = some (take (suc w) (n ∷ ns))

abbrev pub plain_ring : HashRing
plain_ring = record {
  Ring = List Text;
  new = [];
  add = λ r n. n ∷ r;
  len = length;
  get_with_replicas = plain_window;
}

pub plain_window-take :
    (r : List Text) (k : Text) (w : ℕ) → unwrap_or [] (plain_window r k w) ≡ take (suc w) r
plain_window-take [] k w = refl
plain_window-take (n ∷ ns) k w = refl

unfoldable pub plain_laws : RingLaws plain_ring
unfolding contains
plain_laws = record {
  walk = λ r k. r;
  length-walk = λ r k. refl;
  window_size = λ r k w. suc w;
  window_walk = plain_window-take;
  window_enough = λ r k w. omega arith;
  contains-walk_new = λ k n. refl;
  contains-walk_add = λ r k n m. refl;
}

-- Headers as a map; every value is valid.
abbrev pub plain_http : HttpApi
plain_http = record {
  Headers = TextMap Text;
  empty = [];
  get = λ h k. lookup k h;
  set = insert;
  entries = λ h. h;
  parse = some;
  parse_error = [];
  to_str = some;
  decode = λ h t. t;
  show_status = decimal;
}

-- A url is cut at its first question mark, and a pair at its first equals sign.
abbrev pub parse_plain : Text → Text ⊎ (Text × Option Text)
parse_plain url = elim (split_once b'?' url) [
  | none ↦ inr (url, none)
  | some (base, query) ↦ inr (base, some query)
]

abbrev pub plain_pairs : Text → List (Text × Text)
plain_pairs segment = elim (split_once b'=' segment) [
  | none ↦ (segment, []) ∷ []
  | some (k, v) ↦ (k, v) ∷ []
]

abbrev pub print_plain : Text × Option Text → Text
print_plain (base, none) = base
print_plain (base, some query) = base ++ b'?' ∷ query

abbrev hex : ℕ → ℕ
hex n = if ltb n 10 then b'0' + n else b'A' + (n - 10)

abbrev pub plain_url : UrlApi
plain_url = record {
  Url = Text × Option Text;
  parse = parse_plain;
  scheme = λ u. text "http";
  query = λ u. u.1;
  set_query = λ q u. (u.0, q);
  into_string = print_plain;
  before_path = λ u. u.0;
  after_path = λ u. [];
  parse_pairs = plain_pairs;
  percent_encode_byte = λ b. b'%' ∷ hex (b / 16) ∷ hex (b % 16) ∷ [];
}

abbrev pub plain_ids : IdApi
plain_ids = record {
  url = plain_url;
  regex = record { is_match = λ r url. false; captures = λ r url. none };
  sha256_hex = λ t. t;
  standard_name = text "STANDARD";
}

abbrev plain_response : Response plain_http
plain_response = record {
  status = 200;
  headers = [];
  content_length = none;
  chunks = text "he" ∷ text "llo" ∷ [];
  ending = none;
}

abbrev pub broken_response : Response plain_http
broken_response = record {
  status = 200;
  headers = [];
  content_length = none;
  chunks = text "he" ∷ [];
  ending = some (record { is_timeout = true; message = text "timed out" });
}

-- The world is a clock that also counts requests: the first one breaks off.
abbrev transmit_plain :
    ℕ → Text → Text → TextMap Text → ℕ → ℕ × (TransportError ⊎ Response plain_http)
transmit_plain zero c url headers timeout = (1, inr broken_response)
transmit_plain (suc n) c url headers timeout = (suc (suc n), inr plain_response)

abbrev pub plain_env : Env
plain_env = record {
  http = plain_http;
  ids = plain_ids;
  ring = plain_ring;
  retrier = plain_retrier;
  printers = record {
    debug_message = λ m. unwrap_or [] m;
    debug_header = λ h. [];
    debug_status_code = λ s. [];
    show_status = λ s. [];
  };
  parse_ip = λ t. inr (v4 t);
  World = ℕ;
  now = λ w. w;
  wait = λ d w. w + d;
  Client = Text;
  set_proxy = λ t. none;
  build_client = inr;
  transmit = transmit_plain;
}

abbrev pub plain_policy : RetryPolicy plain_retrier
plain_policy = record { max_retries = 1; backoff = none }

abbrev pub plain_proxy : Proxy plain_env
plain_proxy = record {
  scheduler_endpoint = [];
  retry = plain_policy;
  id_generator = record { ip = []; hostname = []; is_seed_peer = true };
}

abbrev pub plain_session : Session plain_env
plain_session = record {
  ejections = [];
  pool = record { clients = []; capacity = 128; idle_timeout = 600; cleanup_at = 0 };
  world = 0;
}

abbrev pub host_a : Host
host_a = record { name = text "a"; ip = text "10.0.0.1"; port = pos 65000; proxy_port = pos 4001 }

abbrev pub host_b : Host
host_b = record { name = text "b"; ip = text "10.0.0.2"; port = pos 65000; proxy_port = pos 4001 }

abbrev pub peer_a : SeedPeer
peer_a = record { host = host_a; healthy = true }

abbrev pub peer_b : SeedPeer
peer_b = record { host = host_b; healthy = true }

abbrev pub two_peers : List SeedPeer
two_peers = peer_a ∷ peer_b ∷ []

-- The selector after one update.
unfoldable pub plain_peers : SeedPeers plain_ring
unfolding update
plain_peers = update plain_ring (empty_seed_peers plain_ring) two_peers

pub plain_peers-IsSynced : IsSynced plain_ring plain_laws plain_peers
unfolding plain_peers plain_laws
plain_peers-IsSynced =
    (update-IsSynced plain_ring plain_laws (empty_seed_peers plain_ring) two_peers
      (empty-IsSynced plain_ring plain_laws)).0
