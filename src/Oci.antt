-- ===== src/Oci.antt =====
-- client-request/rust/src/oci.rs: the registry of an image, its manifest and blobs. The oci_client
-- and oci_spec crates are arguments.
pub mod Digests
pub mod Images
use dragonfly_sdk.Base.{
  ◌+◌, ◌-◌, ◌/◌, ◌⊎◌, Bool, true, false, ◌&&◌, Option, none, some, List, [], ◌∷◌, ◌++◌,
  if◌then◌else◌, Text, text, text_eq, text_le, split_once,
}
use dragonfly_sdk.Errors.{Result, ok, err, invalid_argument, ◌>>=◌}

-- What the code reads of a manifest: the digest of the config and those of the layers.
pub record Manifest : Type 0 where
  pub config : Text
  pub layers : List Text

pub record OciApi : Type 1 where
  pub Os : Type 0
  pub Arch : Type 0
  pub os : Text → Os
  pub arch : Text → Arch
  pub same_os : Os → Os → Bool
  pub same_arch : Arch → Arch → Bool
  -- An image reference.
  pub Reference : Type 0
  pub parse : Text → Text ⊎ Reference
  pub registry : Reference → Text
  pub repository : Reference → Text
  pub tag : Reference → Option Text
  pub digest : Reference → Option Text

module _ (O : OciApi) where
  -- An entry of a multi-platform image index.
  pub record ImageIndexEntry : Type 0 where
    pub platform : Option (O.Os × O.Arch)
    pub digest : Text

  abbrev pub PlatformResolver : Type 0
  PlatformResolver = List ImageIndexEntry → Option Text

  abbrev matches : O.Os → O.Arch → Option (O.Os × O.Arch) → Bool
  matches os arch none = false
  matches os arch (some (entry_os, entry_arch)) =
      O.same_os entry_os os && O.same_arch entry_arch arch

  -- The digest of the first entry for a platform.
  unfoldable pub find_platform : O.Os → O.Arch → PlatformResolver
  find_platform os arch [] = none
  find_platform os arch (entry ∷ entries) = elim (matches os arch entry.platform) [
    | true ↦ some entry.digest
    | false ↦ find_platform os arch entries
  ]

  unfoldable pub platform_resolver : Text → Result PlatformResolver
  unfolding find_platform
  platform_resolver platform = elim (split_once b'/' platform) [
    | none ↦ err (
        invalid_argument (
          text "invalid platform format '"
          ++ platform
          ++ text "', expected 'os/arch' (e.g., 'linux/amd64')"))
    | some (os, arch) ↦ ok (find_platform (O.os os) (O.arch arch))
  ]

  -- The resolver that the client of the registry gets; the default is the crate's own.
  unfoldable pub client_resolver : PlatformResolver → Option Text → Result PlatformResolver
  unfolding platform_resolver
  client_resolver current_platform none = ok current_platform
  client_resolver current_platform (some platform) = platform_resolver platform

  unfoldable pub resolve_registry : O.Reference → Text
  resolve_registry reference =
      if text_eq (O.registry reference) (text "docker.io")
      then text "registry-1.docker.io"
      else O.registry reference

unfoldable pub build_blob_url : Text → Text → Text → Text
build_blob_url registry repository digest =
    text "https://" ++ registry ++ text "/v2/" ++ repository ++ text "/blobs/" ++ digest

unfoldable pub build_manifest_url : Text → Text → Text → Text
build_manifest_url registry repository reference =
    text "https://" ++ registry ++ text "/v2/" ++ repository ++ text "/manifests/" ++ reference

-- `BTreeSet::insert`: the set is a list in order, and an element that is there stays.
unfoldable pub insert_digest : Text → List Text → List Text
insert_digest k [] = k ∷ []
insert_digest k (j ∷ js) =
    let rest = j ∷ insert_digest k js in
    if text_eq j k then j ∷ js else if text_le k j then k ∷ j ∷ js else rest

unfoldable pub digest_set : List Text → List Text
unfolding insert_digest
digest_set [] = []
digest_set (k ∷ ks) = insert_digest k (digest_set ks)

unfoldable pub blob_digests : Manifest → List Text
unfolding digest_set
blob_digests m = digest_set (m.config ∷ m.layers)
