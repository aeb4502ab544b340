-- ===== src/Prelude/Strings.antt =====
-- Functions of Go's package strings. Lengths and positions count bytes, as in Go.
use docker_cloud_manager.Prelude.Tests.{if◌then◌else◌, leb, ◌==◌}
use mathlib.Core.Bool.{Bool, true, false, ◌&&◌, ◌||◌}
use Prim.Native.Char.{Char, code}
use Prim.Native.String.{String, len, slice, [] as end, ◌∷◌ as ◌then◌}
use text.Mathlib.Text.{starts_with, ◌==◌ as str_eq}

-- strings.TrimPrefix
abbrev pub trim_prefix : String → String → String
trim_prefix s prefix = if starts_with s prefix then slice s (len prefix) (len s) else s

-- strings.Trim, of the characters that `cut` tells
unfoldable pub trim_left : (Char → Bool) → String → String
trim_left cut end = end
trim_left cut (c then s) = let rest = trim_left cut s in if cut c then rest else (c then s)

unfoldable pub trim_right : (Char → Bool) → String → String
trim_right cut end = end
trim_right cut (c then s) =
    let rest = trim_right cut s in if cut c && str_eq rest "" then end else (c then rest)

abbrev pub trim : (Char → Bool) → String → String
trim cut s = trim_right cut (trim_left cut s)

-- unicode.IsSpace
abbrev pub is_space : Char → Bool
is_space c =
    let n = code c in
    (leb 9 n && leb n 13)
    || n == 32
    || n == 133
    || n == 160
    || n == 5760
    || (leb 8192 n && leb n 8202)
    || n == 8232
    || n == 8233
    || n == 8239
    || n == 8287
    || n == 12288

-- strings.TrimSpace
abbrev pub trim_space : String → String
trim_space s = trim is_space s

unfoldable pub has_char : (Char → Bool) → String → Bool
has_char p end = false
has_char p (c then s) = let rest = has_char p s in p c || rest

unfoldable pub every_char : (Char → Bool) → String → Bool
every_char p end = true
every_char p (c then s) = let rest = every_char p s in p c && rest

-- strings.HasSuffix, of one character
unfoldable pub ends_with : (Char → Bool) → String → Bool
ends_with p end = false
ends_with p (c then s) = let rest = ends_with p s in (p c && str_eq s "") || rest

abbrev pub is_digit : Char → Bool
is_digit c = leb 48 (code c) && leb (code c) 57

abbrev pub is_lower : Char → Bool
is_lower c = leb 97 (code c) && leb (code c) 122

abbrev pub is_upper : Char → Bool
is_upper c = leb 65 (code c) && leb (code c) 90

-- strings.Contains
unfoldable pub contains : String → String → Bool
contains end sub = str_eq sub ""
contains (c then s) sub = let rest = contains s sub in starts_with (c then s) sub || rest
