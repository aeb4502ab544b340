-- ===== src/Validation.antt =====
-- backend/pkg/validation/validation.go: names, paths and numbers in texts. A pattern that is fixed
-- in the source is written out as a test; one that an administrator writes is read by `compile`.
use docker_cloud_manager.Prelude.{
  Bool, true, false, not, ◌&&◌, ◌||◌, List, String, any, leb, ◌==◌, if◌then◌else◌,
}
use docker_cloud_manager.Prelude.Strings.{
  contains, trim_space, trim_right, has_char, every_char, is_digit, is_lower, is_upper,
}
use docker_cloud_manager.AppErrors.{foreign, ◌⧺◌}
use docker_cloud_manager.Result.{Result, ok, err, refuse}
use Prim.Native.Char.{Char, code}
use Prim.Native.String.{[] as end, ◌∷◌ as ◌then◌, len}
use text.Mathlib.Text.{starts_with, ◌==◌ as str_eq}

-- [a-z0-9]
abbrev pub is_label_char : Char → Bool
is_label_char c = is_lower c || is_digit c

-- [a-z0-9-]*[a-z0-9]
unfoldable pub ends_label : String → Bool
ends_label end = false
ends_label (c then s) =
    let rest = ends_label s in
    (is_label_char c && str_eq s "") || ((is_label_char c || code c == 45) && rest)

-- ^[a-z0-9]([a-z0-9-]{0,28}[a-z0-9])?$
unfoldable pub domain_prefix_re : String → Bool
unfolding ends_label
domain_prefix_re end = false
domain_prefix_re (c then s) = is_label_char c && (str_eq s "" || (ends_label s && leb (len s) 29))

-- ^[A-Za-z0-9][A-Za-z0-9_.-]{0,62}$
abbrev pub is_name_start : Char → Bool
is_name_start c = is_label_char c || is_upper c

abbrev pub is_name_char : Char → Bool
is_name_char c = is_name_start c || code c == 95 || code c == 46 || code c == 45

unfoldable pub resource_name_re : String → Bool
resource_name_re end = false
resource_name_re (c then s) = is_name_start c && every_char is_name_char s && leb (len s) 62

-- [0-9]*[kKmMgG]$
unfoldable pub ends_size : String → Bool
ends_size end = false
ends_size (c then s) =
    let rest = ends_size s in
    let n = code c in
    ((n == 107 || n == 75 || n == 109 || n == 77 || n == 103 || n == 71) && str_eq s "")
    || (is_digit c && rest)

abbrev pub is_size_start : Char → Bool
is_size_start c = is_digit c && not (code c == 48)

-- ^[1-9][0-9]*[kKmMgG]$
unfoldable pub size_re : String → Bool
unfolding ends_size
size_re end = false
size_re (c then s) = is_size_start c && ends_size s

-- ^[1-9][0-9]*$
unfoldable pub number_re : String → Bool
number_re end = false
number_re (c then s) = is_size_start c && every_char is_digit s

-- ([._/-]?[a-z0-9]+)*(:[A-Za-z0-9_.-]{1,128})?$, where `after` says that the last one was of
-- [a-z0-9], without which neither a separator nor the end may come.
unfoldable pub image_path : Bool → String → Bool
image_path after end = after
image_path after (c then s) =
    let rest = image_path (is_label_char c) s in
    let n = code c in
    (after && n == 58 && every_char is_name_char s && leb 1 (len s) && leb (len s) 128)
    || ((is_label_char c || (after && (n == 46 || n == 95 || n == 47 || n == 45))) && rest)

-- ^[a-z0-9]+([._/-][a-z0-9]+)*(:[A-Za-z0-9_.-]{1,128})?$
abbrev pub image_tag_re : String → Bool
unfolding image_path
image_tag_re tag = image_path false tag

unfoldable pub domain_prefix : String → Result (Unit {0})
unfolding domain_prefix_re
domain_prefix prefix =
    if str_eq prefix ""
    then ok tt
    else refuse (not (domain_prefix_re prefix))
        (foreign "domain prefix must be a DNS label: lowercase letters, digits and hyphen only")

unfoldable pub resource_name : String → Result (Unit {0})
unfolding resource_name_re
resource_name name = refuse (not (resource_name_re name)) (
    foreign (
      "name must start with a letter or digit and contain only letters, digits, "
      ⧺ "underscore, dot or hyphen"))

abbrev pub project_name : String → Result (Unit {0})
unfolding resource_name
project_name name = resource_name name

unfoldable pub image_tag : String → Result (Unit {0})
unfolding image_path
image_tag tag =
    refuse (not (image_tag_re tag) || contains tag ".." || contains tag "//")
      (foreign "image tag must be a Docker Hub-style image reference without a registry host")

unfoldable pub docker_size : String → Result (Unit {0})
unfolding size_re
docker_size value =
    refuse (not (size_re value)) (foreign "size must be a positive Docker size like 10m or 1G")

unfoldable pub positive_number_string : String → Result (Unit {0})
unfolding number_re
positive_number_string value =
    refuse (not (number_re value)) (foreign "value must be a positive integer")

-- A switch over the parts of the tree that no volume may hide.
unfoldable pub mount_path_cases : String → Result (Unit {0})
mount_path_cases clean =
    if str_eq clean ""
    then err (foreign "mounting a volume to / is not allowed")
    else if str_eq clean "/proc" || starts_with clean "/proc/"
    then err (foreign "mounting a volume to /proc is not allowed")
    else if str_eq clean "/sys" || starts_with clean "/sys/"
    then err (foreign "mounting a volume to /sys is not allowed")
    else if str_eq clean "/dev" || starts_with clean "/dev/"
    then err (foreign "mounting a volume to /dev is not allowed")
    else refuse (str_eq clean "/var/run/docker.sock")
        (foreign "mounting over docker.sock is not allowed")

unfoldable pub mount_path : String → Result (Unit {0})
unfolding mount_path_cases
mount_path path =
    if not (starts_with path "/") || has_char (λ c. code c == 0) path
    then err (foreign "mount path must be an absolute container path")
    else mount_path_cases (trim_right (λ c. code c == 47) path)

-- `to_lower` is strings.ToLower, `quote` is strconv.Quote, which prints a `%q`;
-- `compile` is regexp.Compile, with the MatchString of its result.
pub record Texts : Type 0 where
  pub to_lower : String → String
  pub quote : String → String
  pub compile : String → Result (String → Bool)

module _ (texts : Texts) where
  unfoldable pub reserved_domain_prefix : String → List String → Bool
  reserved_domain_prefix given reserved =
      let prefix = texts.to_lower (trim_space given) in
      if str_eq prefix ""
      then false
      else any (λ item. str_eq prefix (texts.to_lower (trim_space item))) reserved

  abbrev pub matches : Result (String → Bool) → String → Bool
  matches (err e) prefix = false
  matches (ok matched) prefix = matched prefix

  abbrev pub forbids : String → String → Bool
  forbids prefix given =
      let pattern = trim_space given in
      if str_eq pattern "" then false else matches (texts.compile ("^(?:" ⧺ pattern ⧺ ")$")) prefix

  unfoldable pub forbidden_domain_prefix : String → List String → List String → Bool
  unfolding reserved_domain_prefix
  forbidden_domain_prefix given reserved patterns =
      let prefix = texts.to_lower (trim_space given) in
      if str_eq prefix ""
      then false
      else if reserved_domain_prefix prefix reserved
      then true
      else any (forbids prefix) patterns
