-- ===== src/Url.antt =====
-- client-request/rust/src/url.rs: the canonical form of a url, which decides the task id. The url
-- and percent_encoding crates are arguments.
pub mod Escape
use dragonfly_sdk.Base.{
  ℕ, ◌+◌, ◌-◌, ◌/◌, ◌⊎◌, inl, inr, Bool, false, ◌&&◌, ◌||◌, not, Option, none, some, List, [], ◌∷◌,
  ◌++◌, map, flat_map, leb, ◌==◌, if◌then◌else◌, unwrap_or, filter, is_empty, Text, text, contains,
  text_le, has_byte, split_once_text, until, split,
}
pub mod Canonical
use dragonfly_sdk.Errors.{Result, ok, err, invalid_argument, ◌>>=◌, map_err}

-- What the code uses of the url and percent_encoding crates.
pub record UrlApi : Type 1 where
  pub Url : Type 0
  -- `Url::parse`, or the message of its error.
  pub parse : Text → Text ⊎ Url
  pub scheme : Url → Text
  pub query : Url → Option Text
  pub set_query : Option Text → Url → Url
  pub into_string : Url → Text
  -- The slices up to the path and behind it.
  pub before_path : Url → Text
  pub after_path : Url → Text
  -- `form_urlencoded::parse`.
  pub parse_pairs : Text → List (Text × Text)
  pub percent_encode_byte : ℕ → Text

unfoldable pub is_unreserved : ℕ → Bool
is_unreserved b =
    b == b'-'
    || b == b'.'
    || (leb b'0' b && leb b b'9')
    || (leb b'A' b && leb b b'Z')
    || b == b'_'
    || (leb b'a' b && leb b b'z')
    || b == b'~'

-- `sort_by` on the keys: a stable sort.
unfoldable pub insert_pair : Text × Text → List (Text × Text) → List (Text × Text)
insert_pair p [] = p ∷ []
insert_pair p (q ∷ qs) =
    let rest = q ∷ insert_pair p qs in if text_le p.0 q.0 then p ∷ q ∷ qs else rest

unfoldable pub sort_pairs : List (Text × Text) → List (Text × Text)
unfolding insert_pair text_le
sort_pairs [] = []
sort_pairs (p ∷ ps) = insert_pair p (sort_pairs ps)

abbrev pub join : Text → List Text → Text
join separator [] = []
join separator (t ∷ []) = t
join separator (t ∷ u ∷ ts) = t ++ separator ++ join separator (u ∷ ts)

-- The authority is all that stands between `://` and the first `?` or `#`.
unfoldable pub has_empty_path : Text → Bool
unfolding split_once_text until has_byte
has_empty_path url = elim (split_once_text (text "://") url) [
  | none ↦ false
  | some (_, rest) ↦ not (has_byte b'/' (until (λ b. b == b'?' || b == b'#') rest))
]

module _ (U : UrlApi) where
  unfoldable pub escape_byte : ℕ → Text
  escape_byte b =
      if is_unreserved b then b ∷ [] else if b == b' ' then b'+' ∷ [] else U.percent_encode_byte b

  unfoldable pub query_escape : Text → Text
  query_escape [] = []
  query_escape (b ∷ s) = escape_byte b ++ query_escape s

  -- The pairs of the segments without a semicolon.
  abbrev pub all_pairs : Text → List (Text × Text)
  all_pairs query =
      flat_map U.parse_pairs (filter (λ segment. not (has_byte b';' segment)) (split b'&' query))

  -- The pairs whose key is not filtered, in the order of the url.
  unfoldable pub retained_pairs : List Text → Text → List (Text × Text)
  retained_pairs filtered query = filter (λ p. not (contains p.0 filtered)) (all_pairs query)

  abbrev pub escape_pair : Text × Text → Text
  escape_pair (k, v) = query_escape k ++ text "=" ++ query_escape v

  unfoldable pub canonical_query : List (Text × Text) → Option Text
  canonical_query [] = none
  canonical_query (p ∷ ps) = some (join (text "&") (map escape_pair (p ∷ ps)))

  abbrev pub print_url : Bool → U.Url → Text
  print_url empty_path url =
      if empty_path then U.before_path url ++ U.after_path url else U.into_string url

  abbrev pub parse_url : Text → Result U.Url
  parse_url url = elim (U.parse url) [
    | inl m ↦ err (invalid_argument (text "invalid url: " ++ m))
    | inr u ↦ ok u
  ]

  unfoldable pub filter_query_params : Text → List Text → Result Text
  unfolding retained_pairs canonical_query has_empty_path sort_pairs
  filter_query_params url filtered = if is_empty filtered then ok url else (do
    u ← parse_url url
    let pairs = sort_pairs (retained_pairs filtered (unwrap_or [] (U.query u)))
    ok (print_url (has_empty_path url) (U.set_query (canonical_query pairs) u)))
