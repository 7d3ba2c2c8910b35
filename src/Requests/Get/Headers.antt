-- ===== src/Requests/Get/Headers.antt =====
-- client-request/rust/src/lib.rs: the headers that tell the proxy about a GET.
use mathlib.Core.Option
use dragonfly_sdk.Base.{
  decimal, ℕ, ◌+◌, String, ◌≡◌, sym, ap, ◌∙◌, subst, inl, inr, Bool, ◌&&◌, Option, none, some, List,
  [], ◌∷◌, map, leb, if◌then◌else◌, Option-cases, bind, drop, Text, text, text_eq,
}
use dragonfly_sdk.Errors.{ok, err, >>=-ok, ok-injective, ◌>>=◌, Result}
use dragonfly_sdk.Http.{HttpApi}
use dragonfly_sdk.Requests.Get.{
  GetRequest, proxy_headers, set_header, set_optional, joined_params, int_text, bool_text,
}

-- Header names are compared without the case of ASCII letters.
abbrev pub lower : ℕ → ℕ
lower b = if leb b'A' b && leb b b'Z' then b + 32 else b

abbrev pub same_name : Text → Text → Bool
same_name j k = text_eq (map lower j) (map lower k)

-- The documented behaviour of a header map.
pub record HttpLaws (H : HttpApi) : Type 0 where
  pub get-set :
      (j v k : Text) (h : H.Headers)
      → H.get (H.set j v h) k ≡ (if same_name j k then some v else H.get h k)

module _ (H : HttpApi) (L : HttpLaws H) where
  -- What each header is set to, if it is.
  abbrev pub dragonfly_headers : GetRequest H → List (Text × Option Text)
  dragonfly_headers r =
      (text "X-Dragonfly-Piece-Length", bind (Option.map decimal r.piece_length) H.parse)
      ∷ (text "X-Dragonfly-Tag", bind r.tag H.parse)
      ∷ (text "X-Dragonfly-Application", bind r.application H.parse)
      ∷ (
        text "X-Dragonfly-Content-For-Calculating-Task-ID",
        bind r.content_for_calculating_task_id H.parse,
      )
      ∷ (
        text "X-Dragonfly-Enable-Task-ID-Based-Blob-Digest",
        H.parse (bool_text r.enable_task_id_based_blob_digest),
      )
      ∷ (text "X-Dragonfly-Priority", bind (Option.map int_text r.priority) H.parse)
      ∷ (
        text "X-Dragonfly-Filtered-Query-Params",
        bind (joined_params H r.filtered_query_params) H.parse,
      )
      ∷ (text "X-Dragonfly-Use-P2P", some (text "true"))
      ∷ []

  abbrev pub set_to : Text → Text → Option Text → Option Text → Option Text
  set_to j k none before = before
  set_to j k (some v) before = if same_name j k then some v else before

  -- The value of a header after these settings, from its value before.
  abbrev pub after_all : List (Text × Option Text) → Text → Option Text → Option Text
  after_all [] k before = before
  after_all ((j, v) ∷ more) k before = after_all more k (set_to j k v before)

  get-set_header :
      (name what : String) (value : Text) (h after : H.Headers) (k : Text)
      → set_header H name what value h ≡ ok after
      → H.get after k ≡ set_to (text name) k (H.parse value) (H.get h k)
  get-set_header name what value h after k e = elim (Option-cases (H.parse value)) [
    | inl refused ↦ let no : err _ ≡ ok after = rw (refused, set_header) at e in cc
    | inr (v, parsed) ↦
        let set : ok (H.set (text name) v h) ≡ ok after = rw (parsed, set_header) at e in
        rw parsed (
          subst (λ a. H.get a k ≡ (if same_name (text name) k then some v else H.get h k))
            (ok-injective set) (L.get-set (text name) v k h))
  ]

  get-set_optional :
      (name what : String) (value : Option Text) (h after : H.Headers) (k : Text)
      → set_optional H name what value h ≡ ok after
      → H.get after k ≡ set_to (text name) k (bind value H.parse) (H.get h k)
  get-set_optional name what none h after k e = ap (λ a. H.get a k) (sym (ok-injective e))
  get-set_optional name what (some value) h after k e = get-set_header name what value h after k e

  module _ (headers : H.Headers) (k : Text) where
    -- What follows the setting of one header.
    abbrev Continues : (H.Headers → Result H.Headers) → List (Text × Option Text) → Type 0
    Continues next more =
        (after : H.Headers)
        → next after ≡ ok headers
        → H.get headers k ≡ after_all more k (H.get after k)

    then_optional :
        (name what : String) (value : Option Text) (next : H.Headers → Result H.Headers)
        (more : List (Text × Option Text))
        → Continues next more
        → Continues
            (λ h. set_optional H name what value h >>= next)
            ((text name, bind value H.parse) ∷ more)
    then_optional name what value next more go h e =
        let (after, set, rest) = >>=-ok (set_optional H name what value h) next e in
        go after rest ∙ ap (after_all more k) (get-set_optional name what value h after k set)

    then_header :
        (name what : String) (value : Text) (next : H.Headers → Result H.Headers)
        (more : List (Text × Option Text))
        → Continues next more
        → Continues
            (λ h. set_header H name what value h >>= next)
            ((text name, H.parse value) ∷ more)
    then_header name what value next more go h e =
        let (after, set, rest) = >>=-ok (set_header H name what value h) next e in
        go after rest ∙ ap (after_all more k) (get-set_header name what value h after k set)

    last_header :
        (name value : Text) → Continues (λ h. ok (H.set name value h)) ((name, some value) ∷ [])
    last_header name value h e =
        ap (λ a. H.get a k) (sym (ok-injective e)) ∙ L.get-set name value k h

  -- Under the documented behaviour of a header map: when the headers of a request can be built, each
  -- header is the request's own, unless its name, in any case, is one of the eight that the proxy
  -- reads and the request has a value for it, and then it is that value.
  pub proxy_headers-get :
      (r : GetRequest H) (headers : H.Headers) (k : Text)
      → proxy_headers H r ≡ ok headers
      → H.get headers k ≡ after_all (dragonfly_headers r) k (H.get r.header k)
  unfolding proxy_headers
  proxy_headers-get r headers k e =
      let sets = dragonfly_headers r in
      then_optional headers k "X-Dragonfly-Piece-Length" "piece length"
        (Option.map decimal r.piece_length) _ (drop 1 sets)
        (then_optional headers k "X-Dragonfly-Tag" "tag" r.tag _ (drop 2 sets) (
          then_optional headers k "X-Dragonfly-Application" "application" r.application _
            (drop 3 sets)
            (then_optional headers k "X-Dragonfly-Content-For-Calculating-Task-ID"
              "content for calculating task id" r.content_for_calculating_task_id _ (drop 4 sets)
              (then_header headers k "X-Dragonfly-Enable-Task-ID-Based-Blob-Digest"
                "enable task id based blob digest" (bool_text r.enable_task_id_based_blob_digest) _
                (drop 5 sets)
                (then_optional headers k "X-Dragonfly-Priority" "priority"
                  (Option.map int_text r.priority) _ (drop 6 sets)
                  (then_optional headers k "X-Dragonfly-Filtered-Query-Params"
                    "filtered query params" (joined_params H r.filtered_query_params) _
                    (drop 7 sets)
                    (last_header headers k (text "X-Dragonfly-Use-P2P") (text "true"))))))))
        r.header e
