-- ===== src/Digest/RoundTrip.antt =====
-- client-request/rust/src/digest.rs: the text form of a digest and its parser.
use dragonfly_sdk.Base.{
  ℕ, ◌<◌, ◌≡◌, refl, sym, subst, ◌↔◌, inl, inr, false, arith, Option-cases, length, Text, text,
  text_eq, text_eq_iff, has_byte, split_once, split_once-append, append-split_once,
}
use dragonfly_sdk.Digest.{
  Digest, Algorithm, crc32, sha256, sha512, to_text, from_text, check_encoded, separator,
  algorithm_name,
}

-- The lengths that the parser accepts.
abbrev pub HasLength : Algorithm → ℕ → Type 0
HasLength crc32 n = 0 < n
HasLength sha256 n = n ≡ 64
HasLength sha512 n = n ≡ 128

abbrev pub IsValid : Digest → Type 0
IsValid d = HasLength d.algorithm (length d.encoded)

check_encoded-name :
    (s encoded : Text) (a : Algorithm)
    → HasLength a (length encoded)
    → check_encoded s (algorithm_name a) encoded ≡ inr (record { algorithm = a; encoded = encoded })
unfolding check_encoded text_eq
check_encoded-name s encoded crc32 h = ground arith
check_encoded-name s encoded sha256 h = ground arith
check_encoded-name s encoded sha512 h = ground arith

name_without_separator : (a : Algorithm) → has_byte separator (algorithm_name a) ≡ false
unfolding has_byte
name_without_separator crc32 = refl
name_without_separator sha256 = refl
name_without_separator sha512 = refl

-- A digest whose encoded part has the length of its algorithm comes back from its text form.
from_text-to_text : (d : Digest) → IsValid d → from_text (to_text d) ≡ inr d
unfolding from_text to_text
from_text-to_text d h =
    rw
      (
        (split_once-append separator (algorithm_name d.algorithm) d.encoded
            (name_without_separator d.algorithm)),
        from_text,
      )
      (check_encoded-name (to_text d) d.encoded d.algorithm h)

check_encoded-IsValid :
    (s algorithm encoded : Text) (d : Digest)
    → check_encoded s algorithm encoded ≡ inr d
    → IsValid d × (algorithm_name d.algorithm ≡ algorithm) × (d.encoded ≡ encoded)
unfolding check_encoded
check_encoded-IsValid s algorithm encoded d h = ground (
  arith,
  text_eq_iff algorithm (text "crc32"),
  text_eq_iff algorithm (text "sha256"),
  text_eq_iff algorithm (text "sha512"),
)

-- What the parser accepts is valid, and prints as the text that was read.
to_text-from_text : (s : Text) (d : Digest) → from_text s ≡ inr d → IsValid d × (to_text d ≡ s)
unfolding from_text to_text
to_text-from_text s d h = elim (Option-cases (split_once separator s)) [
  | inl e ↦ cc (rw (e, from_text) at h)
  | inr ((algorithm, encoded), e) ↦
      let (valid, name, same) =
        check_encoded-IsValid s algorithm encoded d (rw (e, from_text) at h) in
      (valid, rw (name, same) (sym (append-split_once separator s algorithm encoded e).0))
]

-- A text reads as a digest exactly when the digest is valid and prints as that text: its encoded part
-- has the length of its algorithm, and the text is the algorithm's name, a colon and that part.
pub from_text_iff : (s : Text) (d : Digest) → (from_text s ≡ inr d) ↔ (IsValid d × (to_text d ≡ s))
from_text_iff s d =
    (to_text-from_text s d, λ v. subst (λ t. from_text t ≡ inr d) v.1 (from_text-to_text d v.0))
