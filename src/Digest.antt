-- ===== src/Digest.antt =====
-- client-request/rust/src/digest.rs: digests and the OCI urls that hold them. The regex crate is
-- an argument; a refused text carries the message that the code formats.
pub mod RoundTrip
use dragonfly_sdk.Base.{
  ℕ, ◌≡◌, Bool, Option, none, some, List, [], ◌∷◌, ◌++◌, ◌⊎◌, inl, inr, not, ◌==◌, if◌then◌else◌,
  Text, text, text_eq, split_once, is_some, is_empty, length, bind, get_elem?, decimal, String,
}

pub data Algorithm : Type 0 where
  crc32 sha256 sha512 : Algorithm

abbrev pub algorithm_name : Algorithm → Text
algorithm_name crc32 = text "crc32"
algorithm_name sha256 = text "sha256"
algorithm_name sha512 = text "sha512"

-- `Algorithm::from_str`.
unfoldable pub parse_algorithm : Text → Text ⊎ Algorithm
parse_algorithm s =
    if text_eq s (text "crc32")
    then inr crc32
    else if text_eq s (text "sha256")
    then inr sha256
    else if text_eq s (text "sha512")
    then inr sha512
    else inl (text "invalid digest algorithm: " ++ s)

pub record Digest : Type 0 where
  pub algorithm : Algorithm
  pub encoded : Text

abbrev pub separator : ℕ
separator = b':'

-- The display of a digest.
unfoldable pub to_text : Digest → Text
to_text d = algorithm_name d.algorithm ++ separator ∷ d.encoded

abbrev length_error : String → ℕ → String → Text
length_error kind n expected =
    text "invalid "
    ++ text kind
    ++ text " digest length: "
    ++ decimal n
    ++ text ", expected "
    ++ text expected

-- The match on the algorithm's name, with the check of the encoded part of each.
unfoldable pub check_encoded : Text → Text → Text → Text ⊎ Digest
check_encoded s algorithm encoded =
    if text_eq algorithm (text "crc32")
    then if is_empty encoded
      then inl (text "invalid crc32 digest: " ++ s)
      else inr (record { algorithm = crc32; encoded = encoded })
    else if text_eq algorithm (text "sha256")
    then if not (length encoded == 64)
      then inl (length_error "sha256" (length encoded) "64")
      else inr (record { algorithm = sha256; encoded = encoded })
    else if text_eq algorithm (text "sha512")
    then if not (length encoded == 128)
      then inl (length_error "sha512" (length encoded) "128")
      else inr (record { algorithm = sha512; encoded = encoded })
    else inl (text "invalid digest algorithm: " ++ algorithm)

-- `Digest::from_str`.
unfoldable pub from_text : Text → Text ⊎ Digest
unfolding check_encoded split_once
from_text s = elim (split_once separator s) [
  | none ↦ inl (text "invalid digest: " ++ s)
  | some (algorithm, encoded) ↦ check_encoded s algorithm encoded
]

-- `Result::ok`.
abbrev pub right {ℓ} : {A : Type ℓ} → Text ⊎ A → Option A
right (inl m) = none
right (inr a) = some a

-- What the code uses of the regex crate: a pattern's match, and the groups of the match.
pub record RegexApi : Type 0 where
  pub is_match : Text → Text → Bool
  pub captures : Text → Text → Option (List (Option Text))

abbrev pub blob_url_regex : Text
blob_url_regex = text "^(.*)://(.*)/v2/(.*)/blobs/([^?]+)(?:\\?.*)?$"

abbrev pub manifest_url_regex : Text
manifest_url_regex = text "^(.*)://(.*)/v2/(.*)/manifests/([^?]+)(?:\\?.*)?$"

module _ (R : RegexApi) where
  unfoldable pub is_blob_url : Text → Bool
  is_blob_url url = R.is_match blob_url_regex url

  -- The text of the fourth group.
  abbrev pub reference_of : Text → Text → Option Text
  reference_of regex url = bind (R.captures regex url) (λ caps. bind (get_elem? caps 4) (λ m. m))

  unfoldable pub extract_from_blob_url : Text → Option Digest
  extract_from_blob_url url = bind (reference_of blob_url_regex url) (λ m. right (from_text m))

  unfoldable pub extract_from_manifest_url : Text → Option Digest
  extract_from_manifest_url url =
      bind (reference_of manifest_url_regex url) (λ m. right (from_text m))

  unfoldable pub is_manifest_digest_url : Text → Bool
  unfolding extract_from_manifest_url
  is_manifest_digest_url url = is_some (extract_from_manifest_url url)
