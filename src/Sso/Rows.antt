-- ===== src/Sso/Rows.antt =====
-- What the statements of backend/internal/sso/repository/user.go keep of the table of accounts.
use docker_cloud_manager.Prelude.{
  ℕ, ◌+◌, ◌≤◌, ◌≡◌, refl, sym, ap, ◌∙◌, Bool, true, false, some, List, [], ◌∷◌, arith, any,
  if◌then◌else◌, Bool-cases, Option-cases, inl, inr, ◌⊎◌, ◌==◌, ==_iff,
}
use docker_cloud_manager.Result.{ok, err}
use docker_cloud_manager.Tables.{update_where, find_where}
use docker_cloud_manager.Sso.{
  User, Given, has_id, is_active_admin, count_where, fits, stored, taken, taken_by_other,
  insert_user, change_user,
}
use text.Mathlib.Text.{◌==◌ as str_eq}

abbrev pub bit : Bool → ℕ
bit b = if b then 1 else 0

-- There is an active administrator, and no two accounts share an id.
pub record IsAdministered {F : Type 0} (users : List (User F)) : Type 0 where
  pub admins : 1 ≤ count_where is_active_admin users
  pub ids : (i : ℕ) → count_where (has_id i) users ≤ 1

swapped : (a b : Bool) (n : ℕ) → (if b then n + 1 else n) + bit a ≡ (if a then n + 1 else n) + bit b
swapped a b n = ground arith

shifted :
    (a : Bool) (m n x y : ℕ)
    → m + x ≡ n + y
    → (if a then m + 1 else m) + x ≡ (if a then n + 1 else n) + y
shifted a m n x y h = ground arith

admin_left :
    (new old : ℕ) (c n : Bool)
    → new + bit c ≡ old + bit n
    → 1 ≤ old
    → (c ≡ false) ⊎ ((n ≡ true) ⊎ (2 ≤ old))
    → 1 ≤ new
admin_left new old c n e h (inl lost) = ground arith
admin_left new old c n e h (inr (inl kept)) = ground arith
admin_left new old c n e h (inr (inr others)) = ground arith

at_most_one : (new old : ℕ) (c n : Bool) → c ≡ n → new + bit c ≡ old + bit n → old ≤ 1 → new ≤ 1
at_most_one new old c n same e h = ground arith

one_more : (b : Bool) (n : ℕ) → n ≡ 0 → (if b then n + 1 else n) ≤ 1
one_more b n h = ground arith

not_this : (b : Bool) (n : ℕ) → b ≡ false → n ≤ 1 → (if b then n + 1 else n) ≤ 1
not_this b n missed h = ground arith

-- The account that a change is about may lose its rights only where another administrator is left.
abbrev pub IsSafe : {F : Type 0} → User F → User F → List (User F) → Type 0
IsSafe current next users =
    (is_active_admin current ≡ false)
    ⊎ ((is_active_admin next ≡ true) ⊎ (2 ≤ count_where is_active_admin users))

module _ {F : Type 0} where
  update_none :
      (i : ℕ) (change : User F → User F) (xs : List (User F))
      → count_where (has_id i) xs ≡ 0
      → update_where (has_id i) change xs ≡ xs
  update_none i change [] h = refl
  update_none i change (x ∷ xs) h = elim (Bool-cases (x.id == i)) [
    | inl here ↦ absurd ((λ (c : ⊥). c) (ground arith))
    | inr there ↦ rw there (ap (λ l. x ∷ l) (update_none i change xs (ground arith)))
  ]

  pub count_update :
      (i : ℕ) (new current : User F) (p : User F → Bool) (xs : List (User F))
      → count_where (has_id i) xs ≤ 1
      → find_where (has_id i) xs ≡ some current
      → count_where p (update_where (has_id i) (λ _. new) xs) + bit (p current)
        ≡ count_where p xs + bit (p new)
  count_update i new current p [] few found = cc
  count_update i new current p (x ∷ xs) few found = elim (Bool-cases (x.id == i)) [
    | inl here ↦
        let same : some x ≡ some current = rw here at found in
        let e : x ≡ current = cc in
        let rest = update_none i (λ _. new) xs (ground arith) in
        rw here (rw rest (rw (sym e) (swapped (p x) (p new) (count_where p xs))))
    | inr there ↦
        let ih = count_update i new current p xs (ground arith) (rw there at found) in
        rw there (shifted (p x) _ _ _ _ ih)
  ]

  pub found_has :
      (p : User F → Bool) (current : User F) (xs : List (User F))
      → find_where p xs ≡ some current
      → p current ≡ true
  found_has p current [] h = cc
  found_has p current (x ∷ xs) h = elim (Bool-cases (p x)) [
    | inl here ↦
        let same : some x ≡ some current = rw here at h in
        let e : x ≡ current = cc in rw (sym e) here
    | inr there ↦ found_has p current xs (rw there at h)
  ]

  stored-is_active_admin : (u : User F) → is_active_admin (stored u) ≡ is_active_admin u
  stored-is_active_admin u = elim (Bool-cases (str_eq u.auth_source "")) [
    | inl y ↦ rw y refl
    | inr n ↦ rw n refl
  ]

  stored-id : (u : User F) → (stored u).id ≡ u.id
  stored-id u = elim (Bool-cases (str_eq u.auth_source "")) [
    | inl y ↦ rw y refl
    | inr n ↦ rw n refl
  ]

  pub update-IsAdministered :
      (next current : User F) (users : List (User F))
      → IsAdministered users
      → find_where (has_id next.id) users ≡ some current
      → IsSafe current next users
      → IsAdministered (update_where (has_id next.id) (λ _. stored next) users)
  update-IsAdministered next current users h found safe =
      let admins =
        count_update next.id (stored next) current is_active_admin users (h.ids next.id) found in
      let kept = stored-is_active_admin next in
      let was = found_has (has_id next.id) current users found in
      record {
        admins =
            admin_left _ _ (is_active_admin current) (is_active_admin next)
              (admins ∙ ap (λ b. count_where is_active_admin users + bit b) kept) h.admins safe;
        ids = λ i.
            let ids =
              count_update next.id (stored next) current (has_id i) users (h.ids next.id) found in
            let same : current.id ≡ (stored next).id =
              (==_iff current.id next.id).0 was ∙ sym (stored-id next) in
            at_most_one _ _ _ _ (ap (λ n. n == i) same) ids (h.ids i);
      }

  count_none :
      (i : ℕ) (xs : List (User F)) → any (has_id i) xs ≡ false → count_where (has_id i) xs ≡ 0
  count_none i [] h = refl
  count_none i (x ∷ xs) h = elim (Bool-cases (x.id == i)) [
    | inl here ↦ absurd ((λ (c : ⊥). c) (ground arith))
    | inr there ↦ rw there (count_none i xs (ground arith))
  ]

  insert-IsAdministered :
      (u : User F) (users : List (User F))
      → any (has_id u.id) users ≡ false
      → IsAdministered users
      → IsAdministered (stored u ∷ users)
  insert-IsAdministered u users fresh h = record {
    admins = more (is_active_admin (stored u)) _ h.admins;
    ids = λ i. elim (Bool-cases (u.id == i)) [
      | inl here ↦
          let none_there : count_where (has_id i) users ≡ 0 =
            count_none i users (rw (sym ((==_iff u.id i).0 here)) fresh) in
          one_more ((stored u).id == i) _ none_there
      | inr there ↦ not_this _ _ (ap (λ n. n == i) (stored-id u) ∙ there) (h.ids i)
    ];
  }
    where
      more : (b : Bool) (n : ℕ) → 1 ≤ n → 1 ≤ (if b then n + 1 else n)
      more b n h = ground arith

module _ {F : Type 0} (given : Given F) where
  fits-same : (u : User F) (users new : List (User F)) → fits given u users ≡ ok new → new ≡ users
  fits-same u users new h = elim (Option-cases (given.refuses u)) [
    | inl p ↦ let same : ok users ≡ ok new = rw (p, fits) at h in cc
    | inr (e, p) ↦ let clash : err e ≡ ok new = rw (p, fits) at h in absurd ((λ (c : ⊥). c) cc)
  ]

  pub change_user-IsAdministered :
      (next current : User F) (users new : List (User F))
      → IsAdministered users
      → find_where (has_id next.id) users ≡ some current
      → IsSafe current next users
      → change_user given next users ≡ ok new
      → IsAdministered new
  unfolding change_user
  change_user-IsAdministered next current users new h found safe done =
      elim (Bool-cases (any (has_id next.id) users)) [
        | inr gone ↦ absurd ((λ (c : ⊥). c) (let e = rw gone at done in cc))
        | inl there ↦ elim (Bool-cases (any (taken_by_other next) users)) [
          | inl clash ↦ absurd ((λ (c : ⊥). c) (let e = rw clash at (rw there at done) in cc))
          | inr free ↦
              let e = rw free at (rw there at done) in
              rw (fits-same next _ new e) (update-IsAdministered next current users h found safe)
        ]
      ]

  pub insert_user-IsAdministered :
      (u : User F) (users new : List (User F))
      → IsAdministered users
      → insert_user given u users ≡ ok new
      → IsAdministered new
  unfolding insert_user
  insert_user-IsAdministered u users new h done = elim (Bool-cases (any (has_id u.id) users)) [
    | inl there ↦ absurd ((λ (c : ⊥). c) (let e = rw there at done in cc))
    | inr fresh ↦ elim (Bool-cases (any (taken u) users)) [
      | inl clash ↦ absurd ((λ (c : ⊥). c) (let e = rw clash at (rw fresh at done) in cc))
      | inr free ↦
          let e = rw free at (rw fresh at done) in
          rw (fits-same u _ new e) (insert-IsAdministered u users fresh h)
    ]
  ]

module _ {F : Type 0} where
  pub count_found :
      (p q : User F → Bool) (u : User F) (xs : List (User F))
      → find_where p xs ≡ some u
      → q u ≡ true
      → 1 ≤ count_where q xs
  count_found p q u [] found h = cc
  count_found p q u (x ∷ xs) found h = elim (Bool-cases (p x)) [
    | inl here ↦
        let same : some x ≡ some u = rw here at found in
        let e : x ≡ u = cc in let hit : q x ≡ true = ap q e ∙ h in rw hit (ground arith)
    | inr there ↦
        let rest = count_found p q u xs (rw there at found) h in
        elim (Bool-cases (q x)) [ inl y ↦ rw y (ground arith) | inr n ↦ rw n rest ]
  ]

  -- A row that is found at all is found by its id, where ids are unique.
  pub found_by_id :
      (p : User F → Bool) (u : User F) (xs : List (User F))
      → count_where (has_id u.id) xs ≤ 1
      → find_where p xs ≡ some u
      → find_where (has_id u.id) xs ≡ some u
  found_by_id p u [] few found = cc
  found_by_id p u (x ∷ xs) few found = elim (Bool-cases (p x)) [
    | inl here ↦
        let same : some x ≡ some u = rw here at found in
        let e : x ≡ u = cc in
        let hit : (x.id == u.id) ≡ true = (==_iff x.id u.id).1 (ap (λ r. r.id) e) in
        rw hit (ap some e)
    | inr there ↦
        let rest : find_where p xs ≡ some u = rw there at found in
        let again = count_found p (has_id u.id) u xs rest ((==_iff u.id u.id).1 refl) in
        elim (Bool-cases (x.id == u.id)) [
          | inl twice ↦ absurd ((λ (c : ⊥). c) (ground arith))
          | inr other ↦ rw other (found_by_id p u xs (rw other at few) rest)
        ]
  ]
