-- ===== src/Sso/Users/Checks.antt =====
-- What the calls that a request of backend/internal/sso/service/auth.go makes keep of the table.
use docker_cloud_manager.Prelude.{
  ℕ, ◌≤◌, ◌≡◌, refl, sym, ap, ◌∙◌, not, ◌&&◌, ◌||◌, none, some, List, String, arith, if◌then◌else◌,
  Bool-cases, Option-cases, inl, inr, leb, ==_iff, Option,
}
use mathlib.Core.Path.{subst}
use docker_cloud_manager.AppErrors.{Err, sentinel, new, errorf, conflict}
use docker_cloud_manager.Result.{Result, ok, err}
use docker_cloud_manager.Effect.{Effect, return, raise, on, go_on, on-holds}
use docker_cloud_manager.Tables.{find_where, or_not_found}
use docker_cloud_manager.Sso.{
  User, Accounts, Given, role_admin, status_active, has_id, is_active_admin, count_where, select,
  execute, called, written, save_user, update_user_row, get_user_by_id, count_active_admins,
  insert_user, change_user,
}
use docker_cloud_manager.Sso.Rows.{
  IsAdministered, IsSafe, change_user-IsAdministered, insert_user-IsAdministered, found_has,
}
use docker_cloud_manager.Sso.Users.{ensure_not_last_active_admin}
use text.Mathlib.Text.{◌==◌ as str_eq}

module _ {F : Type 0} (given : Given F) where
  abbrev pub Stays : Accounts F → Type 0
  Stays w = IsAdministered w.users

  pub select-users :
      {T : Type 0} (read : List (User F) → Result T) (r : Result T) (w v : Accounts F)
      → select given read w ≡ (r, v)
      → v.users ≡ w.users
  unfolding select
  select-users read r w v h = elim (Option-cases (given.fault w.calls)) [
    | inl p ↦ let e = rw (p, select) at h in ap (λ x. x.1.users) (sym e)
    | inr (f, p) ↦ let e = rw (p, select) at h in ap (λ x. x.1.users) (sym e)
  ]

  pub select-read :
      {T : Type 0} (read : List (User F) → Result T) (t : T) (w v : Accounts F)
      → select given read w ≡ (ok t, v)
      → read w.users ≡ ok t
  unfolding select
  select-read read t w v h = elim (Option-cases (given.fault w.calls)) [
    | inl p ↦ let e = rw (p, select) at h in ap (λ x. x.0) e
    | inr (f, p) ↦ let e = rw (p, select) at h in absurd ((λ (c : ⊥). c) cc)
  ]

  written-Stays :
      (w : Accounts F) (r : Result (List (User F)))
      → Stays w
      → ((new : List (User F)) → r ≡ ok new → IsAdministered new)
      → Stays (written given w r).1
  written-Stays w (err e) h good = h
  written-Stays w (ok users) h good = good users refl

  execute-Stays :
      (change : List (User F) → Result (List (User F))) (w : Accounts F)
      → Stays w
      → ((new : List (User F)) → change w.users ≡ ok new → IsAdministered new)
      → Stays (execute given change w).1
  unfolding execute
  execute-Stays change w h good = elim (Option-cases (given.fault w.calls)) [
    | inl p ↦ rw (p, execute) (written-Stays (called given w) (change w.users) h good)
    | inr (e, p) ↦ rw (p, execute) h
  ]

  pub save_user-Stays : (u : User F) (w : Accounts F) → Stays w → Stays (save_user given u w).1
  unfolding save_user
  save_user-Stays u w h =
      execute-Stays (insert_user given u) w h
        λ new. insert_user-IsAdministered given u w.users new h

  pub update_user_row-Stays :
      (next current : User F) (w : Accounts F)
      → find_where (has_id next.id) w.users ≡ some current
      → IsSafe current next w.users
      → Stays w
      → Stays (update_user_row given next w).1
  unfolding update_user_row
  update_user_row-Stays next current w found safe h =
      execute-Stays (change_user given next) w h
        λ new. change_user-IsAdministered given next current w.users new h found safe

  abbrev judge : ℕ → Effect (Accounts F) (Unit {0})
  judge n =
      if leb n 1
      then raise (new (sentinel conflict) "cannot deactivate or demote the last active admin")
      else return tt

  abbrev lost_count : Err → Effect (Accounts F) (Unit {0})
  lost_count e = raise (errorf "failed to count active admins: " e "")

  counted :
      (w v : Accounts F) (r : Result ℕ × Accounts F)
      → count_active_admins given w ≡ r
      → go_on lost_count judge r ≡ (ok tt, v)
      → (2 ≤ count_where is_active_admin w.users) × (v.users ≡ w.users)
  unfolding count_active_admins
  counted w v (err e, u) same h = absurd ((λ (c : ⊥). c) cc)
  counted w v (ok n, u) same h =
      let read : ok (count_where is_active_admin w.users) ≡ ok n =
        select-read (λ users. ok (count_where is_active_admin users)) n w u same in
      let exact : count_where is_active_admin w.users ≡ n = cc in
      elim (Bool-cases (leb n 1)) [
        | inl few ↦ let e = rw few at h in absurd ((λ (c : ⊥). c) cc)
        | inr many ↦
            let e = rw many at h in
            (
              ground arith,
              ap (λ x. x.1.users) (sym e)
                  ∙ select-users (λ users. ok (count_where is_active_admin users)) (ok n) w u same,
            )
      ]

  ensure-users :
      (current : User F) (role status : String) (w : Accounts F)
      → (ensure_not_last_active_admin given current role status w).1.users ≡ w.users
  unfolding ensure_not_last_active_admin count_active_admins
  ensure-users current role status w =
      elim (Bool-cases
        (not (str_eq current.role role_admin) || not (str_eq current.status status_active))) [
          | inl idle ↦ rw idle refl
          | inr rights ↦
              rw rights (elim (Bool-cases (str_eq role role_admin && str_eq status status_active)) [
                | inl kept ↦ rw kept refl
                | inr lost ↦ rw lost (
                    on-holds (λ v. v.users ≡ w.users) (count_active_admins given) lost_count judge w
                      (λ e v same. select-users _ (err e) w v same)
                      (λ n v same. elim (Bool-cases (leb n 1)) [
                        | inl few ↦ rw few (select-users _ (ok n) w v same)
                        | inr many ↦ rw many (select-users _ (ok n) w v same)
                      ]))
              ])
        ]

  -- The check lets a change through only if it is safe, and writes nothing.
  pub ensure-IsSafe :
      (current next : User F) (w v : Accounts F)
      → ensure_not_last_active_admin given current next.role next.status w ≡ (ok tt, v)
      → IsSafe current next w.users × (v.users ≡ w.users)
  unfolding ensure_not_last_active_admin
  ensure-IsSafe current next w v h =
      elim (Bool-cases
        (not (str_eq current.role role_admin) || not (str_eq current.status status_active))) [
          | inl idle ↦ let e = rw idle at h in (inl (ground arith), ap (λ x. x.1.users) (sym e))
          | inr rights ↦
              elim (Bool-cases (str_eq next.role role_admin && str_eq next.status status_active)) [
                | inl kept ↦
                    let e = rw kept at (rw rights at h) in
                    (inr (inl kept), ap (λ x. x.1.users) (sym e))
                | inr lost ↦
                    let e = rw lost at (rw rights at h) in
                    let (others, same) = counted w v (count_active_admins given w) refl e in
                    (inr (inr others), same)
              ]
        ]

  pub some_of_ok : (o : Option (User F)) (u : User F) → or_not_found o ≡ ok u → o ≡ some u
  some_of_ok none u h = cc
  some_of_ok (some x) u h = let e : x ≡ u = cc in ap some e

  -- The account of an id, where reading it keeps the table.
  pub with_user-Stays :
      {T : Type 0} (id : ℕ) (next : User F → Effect (Accounts F) T) (w : Accounts F)
      → Stays w
      → ((u : User F) (v : Accounts F)
          → Stays v
          → find_where (has_id u.id) v.users ≡ some u
          → Stays (next u v).1)
      → Stays (on (get_user_by_id given id) raise next w).1
  unfolding get_user_by_id
  with_user-Stays id next w h good =
      let read : List (User F) → Result (User F) =
        λ users. or_not_found (find_where (has_id id) users) in
      on-holds Stays (get_user_by_id given id) raise next w
        (λ e v same. subst IsAdministered (sym (select-users read (err e) w v same)) h)
        (λ u v same.
          let users = select-users read (ok u) w v same in
          let found : find_where (has_id id) w.users ≡ some u =
            some_of_ok (find_where (has_id id) w.users) u (select-read read u w v same) in
          let its_id : u.id ≡ id = (==_iff u.id id).0 (found_has (has_id id) u w.users found) in
          good u v (subst IsAdministered (sym users) h) (
            subst (λ l. find_where (has_id u.id) l ≡ some u) (sym users)
              (subst (λ i. find_where (has_id i) w.users ≡ some u) (sym its_id) found)))

  pub ensured-Stays :
      {T : Type 0} (current next : User F) (rest : Effect (Accounts F) T) (w : Accounts F)
      → Stays w
      → find_where (has_id next.id) w.users ≡ some current
      → ((v : Accounts F)
          → Stays v
          → find_where (has_id next.id) v.users ≡ some current
          → IsSafe current next v.users
          → Stays (rest v).1)
      → Stays
          (on
            (ensure_not_last_active_admin given current next.role next.status)
            raise
            (λ _. rest)
            w).1
  ensured-Stays current next rest w h found good =
      let check = ensure_not_last_active_admin given current next.role next.status in
      on-holds Stays check raise (λ _. rest) w
        (λ e v same.
          subst IsAdministered
            (sym (ap (λ x. x.1.users) (sym same) ∙ ensure-users current next.role next.status w)) h)
        (λ _ v same.
          let (safe, users) = ensure-IsSafe current next w v same in
          good v (subst IsAdministered (sym users) h)
            (subst (λ l. find_where (has_id next.id) l ≡ some current) (sym users) found)
            (subst (IsSafe current next) (sym users) safe))

  pub row-Stays :
      {T : Type 0} (next current : User F) (failed : Err → Effect (Accounts F) T)
      (done : Unit {0} → Effect (Accounts F) T) (w : Accounts F)
      → Stays w
      → find_where (has_id next.id) w.users ≡ some current
      → IsSafe current next w.users
      → ((e : Err) (v : Accounts F) → Stays v → Stays (failed e v).1)
      → ((v : Accounts F) → Stays v → Stays (done tt v).1)
      → Stays (on (update_user_row given next) failed done w).1
  row-Stays next current failed done w h found safe bad good =
      let after = update_user_row-Stays next current w found safe h in
      on-holds Stays (update_user_row given next) failed done w
        (λ e v same. bad e v (subst (λ x. IsAdministered x.1.users) same after))
        (λ _ v same. good v (subst (λ x. IsAdministered x.1.users) same after))

  -- What makes an account adds to the table.
  pub save-Stays :
      {T : Type 0} (u : User F) (failed : Err → Effect (Accounts F) T)
      (done : Unit {0} → Effect (Accounts F) T) (w : Accounts F)
      → Stays w
      → ((e : Err) (v : Accounts F) → Stays v → Stays (failed e v).1)
      → ((v : Accounts F) → Stays v → Stays (done tt v).1)
      → Stays (on (save_user given u) failed done w).1
  save-Stays u failed done w h bad good =
      let after = save_user-Stays u w h in
      on-holds Stays (save_user given u) failed done w
        (λ e v same. bad e v (subst (λ x. IsAdministered x.1.users) same after))
        (λ _ v same. good v (subst (λ x. IsAdministered x.1.users) same after))
