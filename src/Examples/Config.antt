-- ===== src/Examples/Config.antt =====
-- Runs of backend/internal/core/config and backend/pkg/validation, with the natural numbers in the
-- place of float64, texts that are in small letters, and patterns that match only themselves.
use docker_cloud_manager.Prelude.{
  ℕ, ◌≡◌, refl, ◌↔◌, true, false, none, some, List, [], ◌∷◌, String, leb, ltb,
}
use docker_cloud_manager.Prelude.Strings.{
  trim_right, has_char, contains, every_char, ends_with, trim_left, trim_right,
}
use docker_cloud_manager.AppErrors.{foreign}
use docker_cloud_manager.Result.{Result, ok, err, refuse, ◌>>◌}
use docker_cloud_manager.Config.{SystemConfig}
use docker_cloud_manager.Config.Checks.{wrapped, check_each}
use docker_cloud_manager.Config.Validation.{Numbers, validate_system_config}
use docker_cloud_manager.Config.Validation.Bounds.{IsAccepted}
use docker_cloud_manager.Config.Validation.Accepted.{validate_system_config_iff}
use docker_cloud_manager.Config.Manager.{
  Manager, Faults, update, update_all, write_file, IsSaved, update_all-IsSaved,
}
use docker_cloud_manager.Validation.{
  Texts, domain_prefix_re, ends_label, resource_name, resource_name_re, size_re, domain_prefix,
  docker_size, positive_number_string, mount_path, mount_path_cases, image_tag, image_tag_re,
  image_path, forbidden_domain_prefix,
}
use docker_cloud_manager.Examples.Settings.{settings}
use text.Mathlib.Text.{◌==◌ as str_eq}

abbrev numbers : Numbers ℕ
numbers = record { at_most = leb; below = ltb; above = λ a b. ltb b a }

abbrev texts : Texts
texts = record { to_lower = λ s. s; quote = λ s. s; compile = λ p. ok (λ s. str_eq s p) }

abbrev good : SystemConfig ℕ
good = record settings {
  git_allowed_hosts = "github.com" ∷ " gitlab.com" ∷ [];
  telemetry_allowed_exec_commands = "sh" ∷ "bash" ∷ [];
}

-- Two reserved prefixes that are the same.
abbrev doubled : SystemConfig ℕ
doubled = record good { reserved_domain_prefixes = "admin" ∷ "admin" ∷ [] }

good_settings : validate_system_config numbers texts good ≡ ok tt
unfolding validate_system_config ◌>>◌ refuse has_char wrapped docker_size positive_number_string
    every_char check_each domain_prefix trim_left trim_right ends_with
good_settings = refl

doubled_prefix :
    validate_system_config numbers texts doubled
    ≡ err (foreign "reserved domain prefixes must be unique")
unfolding validate_system_config ◌>>◌ refuse has_char wrapped docker_size positive_number_string
    every_char check_each domain_prefix trim_left trim_right ends_with
doubled_prefix = refl

validate_system_config_iff_example :
    (validate_system_config numbers texts good ≡ ok tt) ↔ IsAccepted numbers texts good
validate_system_config_iff_example = validate_system_config_iff numbers texts good

abbrev encode : SystemConfig ℕ → Result String
encode cfg = ok cfg.base_domain

abbrev fine : Faults
fine = record {
  create = none;
  write = none;
  close = none;
  chmod = none;
  rename = none;
  remove = false;
}

abbrev full_disk : Faults
full_disk = record fine { write = some (foreign "no space left on device") }

abbrev manager : Manager ℕ
manager = record { config = good; file = "example.org"; temporaries = [] }

abbrev moved : SystemConfig ℕ
moved = record good { base_domain = "example.net" }

abbrev updates : List (Faults × SystemConfig ℕ)
updates = (fine, doubled) ∷ (full_disk, moved) ∷ (fine, moved) ∷ []

moved_file : (update_all encode numbers texts updates manager).file ≡ "example.net"
unfolding update_all update validate_system_config ◌>>◌ refuse has_char wrapped docker_size
    positive_number_string every_char check_each domain_prefix trim_left trim_right ends_with
    write_file
moved_file = refl

full_disk_keeps : (update encode numbers texts full_disk moved manager).1 ≡ manager
unfolding update validate_system_config ◌>>◌ refuse has_char wrapped docker_size
    positive_number_string every_char check_each domain_prefix trim_left trim_right ends_with
    write_file
full_disk_keeps = refl

update_all-IsSaved_example :
    IsSaved encode numbers texts (update_all encode numbers texts updates manager)
update_all-IsSaved_example =
    update_all-IsSaved encode numbers texts updates manager
      ((validate_system_config_iff numbers texts good).0 good_settings, refl)

prefix_forms :
    (domain_prefix "my-app" ≡ ok tt)
    × ((domain_prefix_re "-app" ≡ false) × (domain_prefix_re "app-" ≡ false))
unfolding domain_prefix domain_prefix_re ends_label refuse
prefix_forms = (refl, (refl, refl))

size_forms :
    (docker_size "10m" ≡ ok tt)
    × ((size_re "0m" ≡ false) × ((size_re "10" ≡ false) × (positive_number_string "3" ≡ ok tt)))
unfolding docker_size positive_number_string refuse every_char size_re
size_forms = (refl, (refl, (refl, refl)))

name_forms : (resource_name "a_b.c-d" ≡ ok tt) × (resource_name_re "_a" ≡ false)
unfolding resource_name resource_name_re refuse every_char
name_forms = (refl, refl)

forbidden_forms :
    (forbidden_domain_prefix texts " admin" ("admin" ∷ []) [] ≡ true)
    × (forbidden_domain_prefix texts "app" [] ("app" ∷ []) ≡ false)
unfolding forbidden_domain_prefix trim_left trim_right
forbidden_forms = (refl, refl)

proc_is_refused :
    mount_path "/proc/self" ≡ err (foreign "mounting a volume to /proc is not allowed")
unfolding mount_path has_char trim_right refuse mount_path_cases
proc_is_refused = refl

tag_forms :
    (image_tag "library/nginx:1.27" ≡ ok tt)
    × ((image_tag_re "nginx/" ≡ false) × (image_tag_re "nginx:" ≡ false))
unfolding image_tag image_path every_char contains refuse
tag_forms = (refl, (refl, refl))

-- Paths that lead to the same place, but are not written so.
proc_by_a_detour :
    (mount_path "/./proc" ≡ ok tt)
    × ((mount_path "//proc" ≡ ok tt) × (mount_path "/a/../proc" ≡ ok tt))
unfolding mount_path has_char trim_right refuse mount_path_cases
proc_by_a_detour = (refl, (refl, refl))
