-- ===== src/Config/Checks.antt =====
-- backend/internal/core/config/validation.go: the shapes that its checks have, with what holds of
-- the values that pass.
use docker_cloud_manager.Prelude.{
  ◌≡◌, refl, ◌↔◌, Bool, true, false, ◌||◌, List, [], ◌∷◌, String, map, any, All, arith,
}
use docker_cloud_manager.Prelude.Int.{ℤ, pos, ◌≤ℤ◌, ◌<ℤ◌, leb_ℤ, ltb_ℤ}
use docker_cloud_manager.AppErrors.{Err, errorf}
use docker_cloud_manager.Result.{Result, ok, err, refuse, ◌>>◌}
use text.Mathlib.Text.{◌==◌ as str_eq}

-- `if err := …; err != nil { return fmt.Errorf("…%w", err) }`
unfoldable pub wrapped {ℓ} : {T : Type ℓ} → String → Result T → Result (Unit {0})
wrapped before (err e) = err (errorf before e "")
wrapped before (ok value) = ok tt

-- A loop that checks each text, and refuses one whose normal form has been seen.
unfoldable pub check_each :
    (String → String)
    → (String → Result (Unit {0}))
    → Err
    → List String
    → List String
    → Result (Unit {0})
check_each normal check duplicate seen [] = ok tt
check_each normal check duplicate seen (x ∷ xs) =
    check x
    >> refuse (any (str_eq (normal x)) seen) duplicate
    >> check_each normal check duplicate (normal x ∷ seen) xs

-- No text equals one that comes before it.
abbrev pub AreDistinct : List String → Type 0
AreDistinct [] = Unit
AreDistinct (x ∷ xs) = All (λ y. str_eq y x ≡ false) xs × AreDistinct xs

abbrev pub EachIsAccepted : (String → String) → (String → Result (Unit {0})) → List String → Type 0
EachIsAccepted normal check xs = All (λ x. check x ≡ ok tt) xs × AreDistinct (map normal xs)

pub same_iff : (b : Bool) → (b ≡ false) ↔ (b ≡ false)
same_iff b = ((λ p. p), (λ p. p))

pub positive_iff : (z : ℤ) → (leb_ℤ z (pos 0) ≡ false) ↔ pos 0 <ℤ z
positive_iff z = ground arith

pub least_iff : (z n : ℤ) → (ltb_ℤ z n ≡ false) ↔ n ≤ℤ z
least_iff z n = ground arith

pub same_ok : {r : Result (Unit {0})} → (r ≡ ok tt) ↔ (r ≡ ok tt)
same_ok = ((λ p. p), (λ p. p))

module _ {P Q : Type 0} where
  pub ||_iff : {a b : Bool} → ((a ≡ false) ↔ P) → ((b ≡ false) ↔ Q) → ((a || b) ≡ false) ↔ (P × Q)
  ||_iff {a = false} (p, p') (q, q') = ((λ e. (p refl, q e)), (λ (_, y). q' y))
  ||_iff {a = true} (p, p') q = ((λ e. absurd ((λ (c : ⊥). c) cc)), (λ (x, _). p' x))

  pub >>_iff :
      {a b : Result (Unit {0})}
      → ((a ≡ ok tt) ↔ P)
      → ((b ≡ ok tt) ↔ Q)
      → ((a >> b) ≡ ok tt) ↔ (P × Q)
  unfolding ◌>>◌
  >>_iff {a = ok done} (p, p') (q, q') = ((λ e. (p refl, q e)), (λ (_, y). q' y))
  >>_iff {a = err e} (p, p') q = ((λ e. absurd ((λ (c : ⊥). c) cc)), (λ (x, _). p' x))

pub refuse_iff : {P : Type 0} {b : Bool} (e : Err) → ((b ≡ false) ↔ P) → (refuse b e ≡ ok tt) ↔ P
unfolding refuse
refuse_iff {b = false} e (p, p') = ((λ _. p refl), (λ _. refl))
refuse_iff {b = true} e (p, p') =
    ((λ same. absurd ((λ (c : ⊥). c) cc)), (λ x. let h = p' x in absurd ((λ (c : ⊥). c) cc)))

pub wrapped_iff :
    (before : String) (r : Result (Unit {0})) → (wrapped before r ≡ ok tt) ↔ (r ≡ ok tt)
unfolding wrapped
wrapped_iff before (ok done) = ((λ _. refl), (λ _. refl))
wrapped_iff before (err e) =
    ((λ same. absurd ((λ (c : ⊥). c) cc)), (λ same. absurd ((λ (c : ⊥). c) cc)))

-- A test that is one of two, on every member.
parted :
    (p q : String → Bool) (xs : List String)
    → All (λ z. (p z || q z) ≡ false) xs ↔ (All (λ z. p z ≡ false) xs × All (λ z. q z ≡ false) xs)
parted p q [] = ((λ _. (tt, tt)), (λ _. tt))
parted p q (x ∷ xs) =
    let rest = parted p q xs in
    let both = ||_iff (same_iff (p x)) (same_iff (q x)) in
    (
      (λ (h, t). (((both.0 h).0, (rest.0 t).0), ((both.0 h).1, (rest.0 t).1))),
      (λ ((a, b), (c, d)). (both.1 (a, c), rest.1 (b, d))),
    )

module _ (normal : String → String) (check : String → Result (Unit {0})) (duplicate : Err) where
  check_each_seen :
      (seen xs : List String)
      → (check_each normal check duplicate seen xs ≡ ok tt)
        ↔ (EachIsAccepted normal check xs × All (λ y. any (str_eq y) seen ≡ false) (map normal xs))
  unfolding check_each
  check_each_seen seen [] = ((λ _. ((tt, tt), tt)), (λ _. refl))
  check_each_seen seen (x ∷ xs) =
      let rest = check_each_seen (normal x ∷ seen) xs in
      let split = parted (λ y. str_eq y (normal x)) (λ y. any (str_eq y) seen) (map normal xs) in
      let all = >>_iff same_ok (>>_iff (refuse_iff _ (same_iff _)) rest) in
      (
        (λ e.
            let (a, (b, ((c, d), f))) = all.0 e in
            (((a, c), ((split.0 f).0, d)), (b, (split.0 f).1))),
        (λ (((a, c), (g, d)), (b, h)). all.1 (a, (b, ((c, d), split.1 (g, h))))),
      )

  -- The loop passes exactly the lists of which each member passes, and which have no duplicate.
  pub check_each_iff :
      (xs : List String)
      → (check_each normal check duplicate [] xs ≡ ok tt) ↔ EachIsAccepted normal check xs
  check_each_iff xs =
      let all = check_each_seen [] xs in
      ((λ e. (all.0 e).0), (λ a. all.1 (a, none_seen (map normal xs))))
    where
      none_seen : (ys : List String) → All (λ y. any (str_eq y) [] ≡ false) ys
      none_seen [] = tt
      none_seen (y ∷ ys) = (refl, none_seen ys)
