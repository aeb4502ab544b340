-- ===== src/Sso/Oidc/Names.antt =====
-- backend/internal/sso/service/auth.go: the name and the email of an account that an OIDC provider
-- describes. Lengths count bytes.
use docker_cloud_manager.Prelude.{
  ℕ, ◌+◌, ◌-◌, Bool, true, false, ◌&&◌, ◌||◌, Option, none, some, List, [], ◌∷◌, String,
  if◌then◌else◌, ◌==◌, ltb, leb,
}
use docker_cloud_manager.Prelude.Strings.{trim, trim_space}
use docker_cloud_manager.AppErrors.{◌⧺◌}
use docker_cloud_manager.Sso.{Given}
use Prim.Native.Char.{Char, code}
use Prim.Native.String.{[] as end, ◌∷◌ as ◌then◌, slice, len}
use text.Mathlib.Text.{◌==◌ as str_eq}

unfoldable pub first_non_empty : List String → String
first_non_empty [] = ""
first_non_empty (value ∷ values) =
    let rest = first_non_empty values in
    if str_eq (trim_space value) "" then rest else trim_space value

abbrev pub is_dash : Char → Bool
is_dash c = code c == 45

-- `value[:limit]`, where that ends between two characters
abbrev pub prefix : String → ℕ → Option String
prefix value limit = if len (slice value 0 limit) == limit then some (slice value 0 limit) else none

-- At least three characters: zeros are added.
abbrev pub padded : String → String
padded value = let n = len value in if ltb n 3 then value ⧺ slice "000" 0 (3 - n) else value

unfoldable pub trim_username : String → ℕ → Option String
trim_username value limit =
    let most = if ltb limit 3 then 3 else limit in
    if leb (len value) most
    then some value
    else elim (prefix value most) [ none ↦ none | some cut ↦ some (padded (trim is_dash cut)) ]

module _ {F : Type 0} (given : Given F) where
  -- The letters and digits; `.` and `_` become `-`.
  unfoldable pub name_characters : String → String
  name_characters end = end
  name_characters (c then s) =
      let rest = name_characters s in
      if given.is_letter_or_digit c
      then (c then rest)
      else if code c == 45 || code c == 95 || code c == 46
      then "-" ⧺ rest
      else rest

  -- Letters and digits until there are eight bytes of them; `n` bytes are there already.
  unfoldable pub suffix_characters : ℕ → String → String
  suffix_characters n end = end
  suffix_characters n (c then s) =
      let taken = given.is_letter_or_digit c in
      let rest = suffix_characters (if taken then len (c then end) + n else n) s in
      if leb 8 (if taken then len (c then end) + n else n)
      then (if taken then (c then end) else end)
      else if taken
      then (c then rest)
      else rest

  unfoldable pub short_subject_suffix : String → String
  short_subject_suffix subject =
      let suffix = suffix_characters 0 (given.to_lower subject) in
      if str_eq suffix "" then "external" else suffix

  unfoldable pub normalize_external_username : String → String → String → Option String
  normalize_external_username username preferred_username subject =
      let base = first_non_empty (username ∷ preferred_username ∷ subject ∷ []) in
      let value = trim is_dash (name_characters (given.to_lower base)) in
      trim_username (if ltb (len value) 3 then "oidc-" ⧺ short_subject_suffix subject else value) 30

  -- The second candidate for a name.
  unfoldable pub suffixed : Option String → String → Option String
  suffixed none subject = none
  suffixed (some base) subject =
      let suffix = short_subject_suffix subject in
      elim (trim_username base (30 - len suffix - 1)) [
        | none ↦ none
        | some cut ↦ some (cut ⧺ "-" ⧺ suffix)
      ]

  abbrev pub has_local_and_domain : String → Bool
  has_local_and_domain email = cut_at email false
    where
      cut_at : String → Bool → Bool
      cut_at end seen = false
      cut_at (c then s) seen =
          let rest = cut_at s true in if code c == 64 then seen && ltb 0 (len s) else rest

  unfoldable pub normalize_external_email : String → String
  normalize_external_email upstream =
      let email = trim_space (given.to_lower upstream) in
      elim (given.parse_address email) [
        | none ↦ ""
        | some address ↦ if str_eq address email && has_local_and_domain email then email else ""
      ]

  unfoldable pub oidc_fallback_email : String → String → String
  oidc_fallback_email provider subject =
      "oidc-" ⧺ slice (given.sha256 (provider ⧺ ":" ⧺ subject)) 0 24 ⧺ "@oidc.local"
