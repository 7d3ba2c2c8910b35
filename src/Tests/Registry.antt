-- ===== src/Tests/Registry.antt =====
-- A registry that knows one image with two blobs, and a semaphore that lets one task run after the
-- other.
use mathlib.Core.List.{Permᴰ}
use mathlib.Core.List.Permᴰ
use dragonfly_sdk.Base.{
  ℕ, zero, suc, ◌<◌, ◌≡◌, refl, inr, Option, none, some, List, [], ◌∷◌, ◌++◌, map, arith, All, Text,
  text, text_eq,
}
use dragonfly_sdk.Errors.{Result}
use dragonfly_sdk.Oci.{OciApi, Manifest, PlatformResolver}
use dragonfly_sdk.Requests.Images.{PreheatImageRequest, default_preheat_image_request}
use dragonfly_sdk.Oci.Images.{Registry}
use dragonfly_sdk.Proxy.Images.Waits.{FinishedLaws}

abbrev pub plain_oci : OciApi
plain_oci = record {
  Os = Text;
  Arch = Text;
  os = λ t. t;
  arch = λ t. t;
  same_os = text_eq;
  same_arch = text_eq;
  Reference = Text;
  parse = inr;
  registry = λ r. text "docker.io";
  repository = λ r. r;
  tag = λ r. none;
  digest = λ r. none;
}

abbrev pub nginx : Manifest
nginx = record { config = text "c"; layers = text "l" ∷ text "c" ∷ [] }

-- A semaphore with one permit: a task that does not return keeps those behind it waiting.
abbrev one_by_one : List (Option (Result (Unit {0}))) → List (Result (Unit {0}))
one_by_one [] = []
one_by_one (none ∷ ts) = []
one_by_one (some r ∷ ts) = r ∷ one_by_one ts

abbrev behind : List (Option (Result (Unit {0}))) → List (Option (Result (Unit {0})))
behind [] = []
behind (none ∷ ts) = none ∷ ts
behind (some r ∷ ts) = behind ts

abbrev pub plain_finished : ℕ → List (Option (Result (Unit {0}))) → List (Result (Unit {0}))
plain_finished zero ts = []
plain_finished (suc n) ts = one_by_one ts

abbrev pub plain_waiting : ℕ → List (Option (Result (Unit {0}))) → List (Option (Result (Unit {0})))
plain_waiting zero ts = ts
plain_waiting (suc n) ts = behind ts

abbrev pub plain_registry : Registry plain_oci
plain_registry = record {
  Net = ℕ;
  Client = PlatformResolver plain_oci;
  current_platform = λ entries. none;
  new_client = λ resolver. resolver;
  Auth = Option (Text × Text);
  basic = λ u p. some (u, p);
  anonymous = none;
  pull_image_manifest = λ client reference auth n. (suc n, inr (nginx, text "m"));
  auth = λ client reference auth n. (suc n, inr (some (text "t")));
  media_types = text "a" ∷ text "b" ∷ [];
  finished = plain_finished;
}

ordered :
    (ts : List (Option (Result (Unit {0})))) → Permᴰ ts (map some (one_by_one ts) ++ behind ts)
ordered [] = Permᴰ.nil
ordered (none ∷ ts) = Permᴰ.refl (none ∷ ts)
ordered (some r ∷ ts) = Permᴰ.cons refl (ordered ts)

none_behind :
    (ts : List (Option (Result (Unit {0}))))
    → All (λ t. (r : Result (Unit {0})) × (t ≡ some r)) ts
    → behind ts ≡ []
none_behind [] h = refl
none_behind (none ∷ ts) ((r, e), hs) = cc
none_behind (some r ∷ ts) (h, hs) = none_behind ts hs

accounted :
    (count : ℕ) (ts : List (Option (Result (Unit {0}))))
    → Permᴰ ts (map some (plain_finished count ts) ++ plain_waiting count ts)
accounted zero ts = Permᴰ.refl ts
accounted (suc n) ts = ordered ts

permitted :
    (count : ℕ) (ts : List (Option (Result (Unit {0}))))
    → 0 < count
    → All (λ t. (r : Result (Unit {0})) × (t ≡ some r)) ts
    → plain_waiting count ts ≡ []
permitted zero ts h all = absurd (omega arith)
permitted (suc n) ts h all = none_behind ts all

pub plain_permits : FinishedLaws plain_oci plain_registry
plain_permits = record { waiting = plain_waiting; all_tasks = accounted; none_waits = permitted }

abbrev pub image_preheat : PreheatImageRequest
image_preheat = record default_preheat_image_request {
  image = text "nginx";
  filtered_query_params = [];
}
