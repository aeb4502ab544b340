-- ===== src/Tables.antt =====
-- Tables of a database as lists of rows, and the parts of SQL that the repositories use.
use docker_cloud_manager.Prelude.{Bool, Option, none, some, List, [], ◌∷◌, if◌then◌else◌}
use docker_cloud_manager.AppErrors.{sentinel, not_found}
use docker_cloud_manager.Result.{Result, ok, err}

-- UPDATE … SET change WHERE matches
abbrev pub update_where {ℓ} : {A : Type ℓ} → (A → Bool) → (A → A) → List A → List A
update_where matches change [] = []
update_where matches change (x ∷ xs) =
    (if matches x then change x else x) ∷ update_where matches change xs

-- SELECT … WHERE matches LIMIT 1
abbrev pub find_where {ℓ} : {A : Type ℓ} → (A → Bool) → List A → Option A
find_where matches [] = none
find_where matches (x ∷ xs) = if matches x then some x else find_where matches xs

-- SELECT … WHERE matches
abbrev pub filter_where {ℓ} : {A : Type ℓ} → (A → Bool) → List A → List A
filter_where matches [] = []
filter_where matches (x ∷ xs) =
    let rest = filter_where matches xs in if matches x then x ∷ rest else rest

-- DELETE … WHERE matches
abbrev pub delete_where {ℓ} : {A : Type ℓ} → (A → Bool) → List A → List A
delete_where matches [] = []
delete_where matches (x ∷ xs) =
    let rest = delete_where matches xs in if matches x then rest else x ∷ rest

abbrev pub or_not_found {ℓ} : {A : Type ℓ} → Option A → Result A
or_not_found none = err (sentinel not_found)
or_not_found (some a) = ok a
