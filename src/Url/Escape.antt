-- ===== src/Url/Escape.antt =====
-- client-request/rust/src/url.rs: the escaping of a query loses nothing.
use dragonfly_sdk.Base.{
  ℕ, ◌+◌, ◌-◌, ◌*◌, ◌/◌, ◌%◌, ◌<◌, ◌≡◌, refl, ap, ◌∙◌, ◌≢◌, inl, inr, true, [], ◌∷◌, ◌++◌, arith,
  ltb, leb, ◌==◌, if◌then◌else◌, Bool-cases, All, Text,
}
use dragonfly_sdk.Url.{escape_byte, UrlApi, query_escape, is_unreserved}

-- The two uppercase hexadecimal digits of a byte, as RFC 3986 writes them.
abbrev hex_digit : ℕ → ℕ
hex_digit n = if ltb n 10 then b'0' + n else b'A' + (n - 10)

abbrev pub Encodes : UrlApi → Type 0
Encodes U =
    (b : ℕ)
    → b < 256
    → U.percent_encode_byte b ≡ b'%' ∷ hex_digit (b / 16) ∷ hex_digit (b % 16) ∷ []

abbrev hex_value : ℕ → ℕ
hex_value d = if leb d b'9' then d - b'0' else d - b'A' + 10

-- The reading of a form: `+` is a space, and `%XX` a byte.
unfoldable pub unescape : Text → Text
unescape [] = []
unescape (c ∷ []) = (if c == b'+' then b' ' else c) ∷ []
unescape (c ∷ d ∷ []) = (if c == b'+' then b' ' else c) ∷ unescape (d ∷ [])
unescape (c ∷ d ∷ e ∷ s) =
    let plain = (if c == b'+' then b' ' else c) ∷ unescape (d ∷ e ∷ s) in
    let coded = (hex_value d * 16 + hex_value e) ∷ unescape s in if c == b'%' then coded else plain

abbrev IsByte : ℕ → Type 0
IsByte b = b < 256

unescape-plain :
    (b : ℕ) (s : Text) → b ≢ b'%' → unescape (b ∷ s) ≡ (if b == b'+' then b' ' else b) ∷ unescape s
unfolding unescape
unescape-plain b [] h = refl
unescape-plain b (c ∷ []) h = refl
unescape-plain b (c ∷ d ∷ s) h = ground arith

unescape-coded :
    (b : ℕ) (s : Text)
    → b < 256
    → unescape (b'%' ∷ hex_digit (b / 16) ∷ hex_digit (b % 16) ∷ s) ≡ b ∷ unescape s
unfolding unescape
unescape-coded b s h = ground arith

plain_of_unreserved : (b : ℕ) → is_unreserved b ≡ true → (b ≢ b'%') × (b ≢ b'+')
unfolding is_unreserved
plain_of_unreserved b h = ground arith

unescape-escape_byte :
    (U : UrlApi)
    → Encodes U
    → (b : ℕ) (s : Text) → b < 256
    → unescape (escape_byte U b ++ s) ≡ b ∷ unescape s
unfolding escape_byte
unescape-escape_byte U codes b s h = elim (Bool-cases (is_unreserved b)) [
  | inl safe ↦
      let (percent, plus) = plain_of_unreserved b safe in
      rw safe (ground (arith, unescape-plain b s percent))
  | inr other ↦ rw other (elim (Bool-cases (b == b' ')) [
    | inl space ↦ rw space (ground (arith, unescape-plain b'+' s))
    | inr coded ↦ rw (coded, codes b h) (unescape-coded b s h)
  ])
]

-- Under the documented percent encoding, reading an escaped query gives the bytes that were escaped.
pub unescape-query_escape :
    (U : UrlApi) → Encodes U → (s : Text) → All IsByte s → unescape (query_escape U s) ≡ s
unfolding query_escape unescape
unescape-query_escape U codes [] h = refl
unescape-query_escape U codes (b ∷ s) h =
    unescape-escape_byte U codes b (query_escape U s) h.0
    ∙ ap (◌∷◌ b) (unescape-query_escape U codes s h.1)
