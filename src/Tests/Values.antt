-- ===== src/Tests/Values.antt =====
-- The values that requests are made of, and the pool of clients.
use mathlib.Core.List.{flat_map}
use dragonfly_sdk.Base.{
  ◌≡◌, refl, ◌↔◌, inr, true, false, none, some, [], ◌∷◌, arith, is_empty, All, Text, text, text_eq,
  text_eq_iff, contains, Distinct, has_byte, split_once, split_once_text, until, split,
}
use dragonfly_sdk.Errors.{internal, is_retryable, ok}
use dragonfly_sdk.Errors.Retryable.{IsTransient, is_retryable_iff}
use dragonfly_sdk.Digest.RoundTrip.{IsValid, from_text_iff}
use dragonfly_sdk.Digest.{to_text, Digest, crc32, from_text}
use dragonfly_sdk.Url.{query_escape, filter_query_params, has_empty_path, retained_pairs}
use dragonfly_sdk.Url.Escape.{unescape, unescape-query_escape}
use dragonfly_sdk.Url.Canonical.Order.{with_key}
use dragonfly_sdk.Url.Canonical.{SameButQuery, filter_query_params_canonical}
use dragonfly_sdk.Ids.{UrlBased, IdGenerator, url_based, task_id}
use dragonfly_sdk.Ids.TaskId.{task_id_unseparated}
use dragonfly_sdk.Proxy.Builders.{validate_seed_peers}
use dragonfly_sdk.Proxy.Builders.SeedPeerNames.{HasName, validate_seed_peers_iff}
use dragonfly_sdk.Tests.World.{two_peers, plain_url, plain_ids}

unescape-query_escape_example : unescape (query_escape plain_url (text "a b/c")) ≡ text "a b/c"
unescape-query_escape_example =
    unescape-query_escape plain_url (λ b h. refl) (text "a b/c") (ground arith)

abbrev crc : Digest
crc = record { algorithm = crc32; encoded = text "0a1b" }

from_text_iff_example :
    (from_text (text "crc32:0a1b") ≡ inr crc) ↔ (IsValid crc × (to_text crc ≡ text "crc32:0a1b"))
from_text_iff_example = from_text_iff (text "crc32:0a1b") crc

abbrev tagged : Text → Text → UrlBased
tagged tag application = record {
  url = text "http://h/f";
  piece_length = none;
  tag = some tag;
  application = some application;
  filtered_query_params = [];
  revision = none;
}

abbrev some_generator : IdGenerator
some_generator = record { ip = []; hostname = []; is_seed_peer = true }

task_id_unseparated_example :
    task_id plain_ids some_generator (url_based (tagged (text "ab") (text "c")))
    ≡ task_id plain_ids some_generator (url_based (tagged (text "a") (text "bc")))
task_id_unseparated_example =
    task_id_unseparated plain_ids some_generator (tagged (text "ab") (text "c"))
      (tagged (text "a") (text "bc")) refl refl refl refl

is_retryable_iff_example :
    (is_retryable (internal (text "x")) ≡ true) ↔ IsTransient (internal (text "x"))
is_retryable_iff_example = is_retryable_iff (internal (text "x"))

validate_seed_peers_iff_example :
    (validate_seed_peers two_peers ≡ ok tt)
    ↔ ((is_empty two_peers ≡ false) × All HasName two_peers × Distinct (text "a" ∷ text "b" ∷ []))
validate_seed_peers_iff_example = validate_seed_peers_iff two_peers

-- Two orders of two parameters, and a filtered one.
abbrev first_url : Text
first_url = text "http://h/f?b=1&a=2&sig=3"

abbrev second_url : Text
second_url = text "http://h/f?a=2&b=1"

same_but_query :
    SameButQuery plain_url first_url second_url
      (text "http://h/f", some (text "b=1&a=2&sig=3"))
      (text "http://h/f", some (text "a=2&b=1"))
unfolding split_once has_empty_path split_once_text until has_byte
same_but_query = record {
  parsed_left = refl;
  parsed_right = refl;
  same_path = refl;
  same_rest = λ q. refl;
}

swapped :
    (k : Text) (p q : Text × Text)
    → text_eq p.0 q.0 ≡ false
    → with_key k (p ∷ q ∷ []) ≡ with_key k (q ∷ p ∷ [])
swapped k p q h = ground (arith, text_eq_iff k p.0, text_eq_iff k q.0, text_eq_iff p.0 q.0)

agree :
    (k : Text)
    → with_key k (retained_pairs plain_url (text "sig" ∷ []) (text "b=1&a=2&sig=3"))
      ≡ with_key k (retained_pairs plain_url (text "sig" ∷ []) (text "a=2&b=1"))
unfolding retained_pairs flat_map split split_once contains text_eq has_byte
agree k = swapped k (text "b", text "1") (text "a", text "2") refl

filter_query_params_canonical_example :
    filter_query_params plain_url first_url (text "sig" ∷ [])
    ≡ filter_query_params plain_url second_url (text "sig" ∷ [])
filter_query_params_canonical_example =
    filter_query_params_canonical plain_url first_url second_url
      (text "http://h/f", some (text "b=1&a=2&sig=3")) (text "http://h/f", some (text "a=2&b=1"))
      (text "sig" ∷ []) refl same_but_query agree
