-- ===== src/Ids.antt =====
-- client-request/rust/src/id_generator.rs: host ids and task ids. The hash and its hexadecimal
-- form are arguments; feeding a hasher piece by piece is hashing the pieces in a row.
pub mod TaskId
use dragonfly_sdk.Base.{
  decimal, ℕ, ◌+◌, ◌-◌, ◌/◌, Bool, Option, none, some, List, [], ◌++◌, if◌then◌else◌, Text, text,
}
use dragonfly_sdk.Errors.{Error, Result, ok, err, invalid_argument, ◌>>=◌, ok_or}
use dragonfly_sdk.Digest.{Digest, RegexApi, extract_from_blob_url, extract_from_manifest_url}
use dragonfly_sdk.Url.{UrlApi, filter_query_params}

-- The external code under a task id.
pub record IdApi : Type 1 where
  pub url : UrlApi
  pub regex : RegexApi
  -- `hex::encode(Sha256::digest(..))`.
  pub sha256_hex : Text → Text
  -- `TaskType::Standard.as_str_name()`.
  pub standard_name : Text

pub record UrlBased : Type 0 where
  pub url : Text
  pub piece_length : Option ℕ
  pub tag : Option Text
  pub application : Option Text
  pub filtered_query_params : List Text
  pub revision : Option Text

pub data TaskIdParameter : Type 0 where
  content : Text → TaskIdParameter
  url_based : UrlBased → TaskIdParameter
  blob_digest_based : Text → TaskIdParameter
  manifest_digest_based : Text → TaskIdParameter

pub record IdGenerator : Type 0 where
  pub ip : Text
  pub hostname : Text
  pub is_seed_peer : Bool

unfoldable pub host_id : IdGenerator → Text
host_id g =
    if g.is_seed_peer
    then g.ip ++ text "-" ++ g.hostname ++ text "-" ++ text "seed"
    else g.ip ++ text "-" ++ g.hostname

-- What `hasher.update` takes of an optional part.
abbrev pub optional : Option Text → Text
optional none = []
optional (some t) = t

abbrev pub optional_number : Option ℕ → Text
optional_number none = []
optional_number (some n) = decimal n

module _ (I : IdApi) where
  unfoldable pub hashed_text : UrlBased → Text → Text
  hashed_text p final_url =
      final_url
      ++ (optional p.tag
          ++ (optional p.application
              ++ (optional p.revision ++ (optional_number p.piece_length ++ I.standard_name))))

  unfoldable pub task_id : IdGenerator → TaskIdParameter → Result Text
  unfolding hashed_text
  task_id g (content t) = ok (I.sha256_hex t)
  task_id g (url_based p) = do
    final_url ← filter_query_params I.url p.url p.filtered_query_params
    ok (I.sha256_hex (hashed_text p final_url))
  task_id g (blob_digest_based url) = do
    d ← ok_or (extract_from_blob_url I.regex url) (invalid_argument url)
    ok d.encoded
  task_id g (manifest_digest_based url) = do
    d ← ok_or (extract_from_manifest_url I.regex url) (invalid_argument url)
    ok d.encoded
