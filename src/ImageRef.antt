-- ===== src/ImageRef.antt =====
-- backend/pkg/imageref/imageref.go: the tag of an image, and its name in the registry.
use docker_cloud_manager.Prelude.{◌&&◌, ◌-◌, Option, none, some, String, if◌then◌else◌, leb, ◌==◌}
use docker_cloud_manager.AppErrors.{◌⧺◌}
use Prim.Native.Char.{code}
use Prim.Native.String.{[] as end, ◌∷◌ as ◌then◌, slice}
use text.Mathlib.Text.{◌==◌ as str_eq}

-- strings.SplitN(s, ":", 2): the parts before and behind the first colon
unfoldable pub split_colon : String → String × Option String
split_colon end = (end, none)
split_colon (c then s) =
    let rest = split_colon s in if code c == 58 then (end, some s) else ((c then rest.0), rest.1)

unfoldable pub version_of : Option String → String
version_of none = "latest"
version_of (some version) = if str_eq version "" then "latest" else version

unfoldable pub parse_tag : String → String × String
parse_tag raw_tag = let parts = split_colon raw_tag in (parts.0, version_of parts.1)

unfoldable pub normalize_tag : String → String
normalize_tag raw_tag = let tag = parse_tag raw_tag in tag.0 ⧺ ":" ⧺ tag.1

-- strings.ToLower, of the letters of ASCII
unfoldable pub to_lower : String → String
to_lower end = end
to_lower (c then s) =
    let rest = to_lower s in
    if leb 65 (code c) && leb (code c) 90
    then slice "abcdefghijklmnopqrstuvwxyz" (code c - 65) (code c - 64) ⧺ rest
    else (c then rest)

-- `owner_id` is the text of a uuid.
unfoldable pub custom_repository_name_string : String → String → String
custom_repository_name_string owner_id base_name = to_lower (owner_id ⧺ "_" ⧺ base_name)

unfoldable pub custom_full_tag : String → String → String → String → String
custom_full_tag registry_url owner_id base_name version =
    registry_url ⧺ "/" ⧺ custom_repository_name_string owner_id base_name ⧺ ":" ⧺ version
