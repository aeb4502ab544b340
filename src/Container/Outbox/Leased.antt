-- ===== src/Container/Outbox/Leased.antt =====
-- Rows of the outbox by membership: what an UPDATE and a lease do to them.
use docker_cloud_manager.Prelude.{
  ℕ, ◌-◌, ◌+◌, ◌≤◌, ◌≡◌, refl, sym, ap, Bool, true, false, ◌&&◌, List, [], ◌∷◌, arith, ltb,
  if◌then◌else◌, Bool-cases, inl, inr, ◌⊎◌,
}
use docker_cloud_manager.Container.{ContainerLifecycleOutbox}
use docker_cloud_manager.Container.Store.{update_where}
use docker_cloud_manager.Container.Outbox.{leasable, lease_row, lease_rows}
pub use mathlib.Core.List.Memᴰ.{head, tail}
pub use mathlib.Core.List.{Memᴰ}

-- A row after an UPDATE is a row before it, changed where it matched.
pub mem-update :
    {A : Type 0} (matches : A → Bool) (change : A → A) (y : A) (xs : List A)
    → Memᴰ y (update_where matches change xs)
    → (x : A) × Memᴰ x xs × (y ≡ (if matches x then change x else x))
mem-update matches change y [] h = elim h [ ]
mem-update matches change y (x ∷ xs) (head e) = (x, head refl, e)
mem-update matches change y (x ∷ xs) (tail h) =
    let (z, there, e) = mem-update matches change y xs h in (z, tail there, e)

abbrev pub count : (ContainerLifecycleOutbox → Bool) → List ContainerLifecycleOutbox → ℕ
count p [] = 0
count p (x ∷ xs) = let rest = count p xs in if p x then rest + 1 else rest

mem-if :
    {A : Type 0} (b : Bool) (a y : A) (l : List A)
    → Memᴰ y (if b then a ∷ l else l)
    → ((b ≡ true) × (y ≡ a)) ⊎ Memᴰ y l
mem-if true a y l (head e) = inl (refl, e)
mem-if true a y l (tail h) = inr h
mem-if false a y l h = inr h

mem-if_kept :
    {A : Type 0} (b : Bool) (a y : A) (l : List A) → Memᴰ y l → Memᴰ y (if b then a ∷ l else l)
mem-if_kept true a y l h = tail h
mem-if_kept false a y l h = h

module _ (is_stale : ContainerLifecycleOutbox → Bool) where
  abbrev left : Bool → ℕ → ℕ
  left taken limit = if taken then limit - 1 else limit

  -- What is leased was free to be leased.
  pub mem-leased :
      (limit : ℕ) (y : ContainerLifecycleOutbox) (xs : List ContainerLifecycleOutbox)
      → Memᴰ y (lease_rows is_stale limit xs).0
      → (x : ContainerLifecycleOutbox) × Memᴰ x xs
        × (leasable is_stale x ≡ true)
        × (y ≡ lease_row x)
  unfolding lease_rows
  mem-leased limit y [] h = elim h [ ]
  mem-leased limit y (x ∷ xs) h =
      let taken = leasable is_stale x && ltb 0 limit in
      let rest = lease_rows is_stale (left taken limit) xs in
      elim (mem-if taken (lease_row x) y rest.0 h) [
        | inl (t, e) ↦ (x, head refl, ground arith, e)
        | inr there ↦
            let (z, m, free, e) = mem-leased (left taken limit) y xs there in (z, tail m, free, e)
      ]

  -- The table afterwards has the same rows, some of them leased.
  pub mem-after_lease :
      (limit : ℕ) (y : ContainerLifecycleOutbox) (xs : List ContainerLifecycleOutbox)
      → Memᴰ y (lease_rows is_stale limit xs).1
      → (x : ContainerLifecycleOutbox) × Memᴰ x xs × ((y ≡ x) ⊎ (y ≡ lease_row x))
  unfolding lease_rows
  mem-after_lease limit y [] h = elim h [ ]
  mem-after_lease limit y (x ∷ xs) (head e) =
      elim (Bool-cases (leasable is_stale x && ltb 0 limit)) [
        | inl taken ↦ (x, head refl, inr (rw taken at e))
        | inr other ↦ (x, head refl, inl (rw other at e))
      ]
  mem-after_lease limit y (x ∷ xs) (tail there) =
      let taken = leasable is_stale x && ltb 0 limit in
      let (z, m, same) = mem-after_lease (left taken limit) y xs there in (z, tail m, same)

  -- Where the limit allows for all of them, all that are free are leased.
  pub leases_all :
      (limit : ℕ) (x : ContainerLifecycleOutbox) (xs : List ContainerLifecycleOutbox)
      → count (leasable is_stale) xs ≤ limit
      → Memᴰ x xs
      → leasable is_stale x ≡ true
      → Memᴰ (lease_row x) (lease_rows is_stale limit xs).0
  unfolding lease_rows
  leases_all limit x [] few h free = elim h [ ]
  leases_all limit x (z ∷ xs) few (head e) free =
      let free_z : leasable is_stale z ≡ true = rw (sym e) free in
      let some_left : ltb 0 limit ≡ true = ground arith in
      rw free_z (rw some_left (head (ap lease_row e)))
  leases_all limit x (z ∷ xs) few (tail there) free =
      let taken = leasable is_stale z && ltb 0 limit in
      mem-if_kept taken (lease_row z) (lease_row x) (lease_rows is_stale (left taken limit) xs).0
        (leases_all (left taken limit) x xs (ground arith) there free)
