-- ===== src/Server/Images.antt =====
-- ResolveImage of internal/config/config.go, and the labels of internal/server/server.go.
use gha_mac_broker.Prelude.{
  String, Bool, false, not, ◌&&◌, List, [], ◌∷◌, Option, none, some, str_eq, if◌then◌else◌,
}
use gha_mac_broker.HostedLoad.{any_string}
use gha_mac_broker.Server.Types.{Image, Config, Platform}

module _ (os : Platform) where
  unfoldable pub normalize_image_key : String → String
  normalize_image_key value = os.strings.to_lower (os.trim_space value)

  -- The checks of the repository part, up to the name of the macOS release.
  unfoldable pub safe_repository : String → Bool
  safe_repository repository =
      let prefix : String = "ghcr.io/cirruslabs/macos-" in
      if not (os.strings.has_prefix repository prefix)
      then false
      else if not (os.has_suffix repository "-xcode")
      then false
      else let macos_part = os.trim_suffix (os.trim_prefix repository prefix) "-xcode" in
        if str_eq macos_part "" then false else not (os.contains_any macos_part "/ \t\r\n")

  unfoldable pub safe_cirrus_image_tag : String → Bool
  unfolding safe_repository
  safe_cirrus_image_tag tag = elim (os.cut (os.trim_space tag) ":") [
    | none ↦ false
    | some (repository, version) ↦
        if str_eq version ""
        then false
        else if os.contains_any version "/ \t\r\n"
        then false
        else safe_repository repository
  ]

  -- The loop over the configured images.
  unfoldable pub find_image : String → String → List Image → Option String
  unfolding normalize_image_key safe_cirrus_image_tag
  find_image macos xcode [] = none
  find_image macos xcode (image ∷ images) =
      let rest = find_image macos xcode images in
      if not (str_eq (normalize_image_key image.macos) macos)
      then rest
      else if not (str_eq (normalize_image_key image.xcode) xcode)
      then rest
      else if not (safe_cirrus_image_tag image.tag)
      then none
      else some image.tag

  -- The loop with the normalized keys.
  unfoldable pub resolve_keys : Config → String → String → Option String
  unfolding find_image
  resolve_keys c macos xcode =
      if str_eq macos "" && str_eq xcode ""
      then if safe_cirrus_image_tag c.base_image then some c.base_image else none
      else if str_eq macos ""
      then none
      else if str_eq xcode ""
      then none
      else find_image macos xcode c.images

  unfoldable pub resolve_image : Config → String → String → Option String
  unfolding resolve_keys
  resolve_image c macos xcode =
      resolve_keys c (normalize_image_key macos) (normalize_image_key xcode)

  unfoldable pub has_label : Config → List String → Bool
  has_label c job_labels =
      any_string (λ job_label. any_string (λ label. os.strings.equal_fold job_label label) c.labels)
        job_labels
