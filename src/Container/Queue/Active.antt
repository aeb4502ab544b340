-- ===== src/Container/Queue/Active.antt =====
-- At any time a resource has one active operation at most.
use docker_cloud_manager.Prelude.{
  ℕ, sym, ==_iff, some, All, ap, ◌≡◌, refl, Bool, true, false, List, [], ◌∷◌, arith, any, ◌||◌,
  ◌&&◌, Bool-cases, inl, inr, ◌==◌, if◌then◌else◌,
}
use mathlib.Core.Path.{subst}
use docker_cloud_manager.Container.{same_resource_type, ResourceType, ResourceOperation, is_active}
use docker_cloud_manager.Container.Store.{update_where, find_where, active_on, has_operation_id}

-- An active operation is followed by no other active operation on its resource.
abbrev pub HasUniqueActive : List ResourceOperation → Type 0
HasUniqueActive [] = Unit
HasUniqueActive (op ∷ ops) =
    (is_active op.status ≡ true → any (active_on op.resource_type op.resource_id) ops ≡ false)
    × HasUniqueActive ops

-- No two operations have one id: the primary key.
abbrev pub HasUniqueIds : List ResourceOperation → Type 0
HasUniqueIds [] = Unit
HasUniqueIds (op ∷ ops) = (any (has_operation_id op.id) ops ≡ false) × HasUniqueIds ops

pub record IsConsistent (ops : List ResourceOperation) : Type 0 where
  pub active : HasUniqueActive ops
  pub ids : HasUniqueIds ops

-- A change of one row that leaves its keys and its kind alone and does not make it active.
pub record IsCalm (old op : ResourceOperation) : Type 0 where
  pub id : op.id ≡ old.id
  pub resource_type : op.resource_type ≡ old.resource_type
  pub resource_id : op.resource_id ≡ old.resource_id
  pub operation : op.operation ≡ old.operation
  pub active : is_active old.status ≡ false → is_active op.status ≡ false

abbrev pub AllCalm :
    (ResourceOperation → Bool)
    → (ResourceOperation → ResourceOperation)
    → List ResourceOperation
    → Type 0
AllCalm matches change = All (λ op. matches op ≡ true → IsCalm op (change op))

IsCalm-was_active :
    {old op : ResourceOperation}
    → IsCalm old op
    → is_active op.status ≡ true
    → is_active old.status ≡ true
IsCalm-was_active {old} c live = elim (Bool-cases (is_active old.status)) [
  | inl a ↦ a
  | inr n ↦ cc (c.active n)
]

active_on-IsCalm :
    (t : ResourceType) (k : ℕ) (old op : ResourceOperation)
    → IsCalm old op
    → active_on t k old ≡ false
    → active_on t k op ≡ false
active_on-IsCalm t k old op c h =
    ground (arith, ap (λ u. same_resource_type u t) c.resource_type, c.active)

module _ (matches : ResourceOperation → Bool) (change : ResourceOperation → ResourceOperation) where
  unfoldable pub changed : ResourceOperation → ResourceOperation
  changed op = if matches op then change op else op

  pub IsCalm-changed :
      (op : ResourceOperation)
      → (matches op ≡ true → IsCalm op (change op))
      → IsCalm op (changed op)
  unfolding changed
  IsCalm-changed op h = elim (Bool-cases (matches op)) [
    | inl m ↦ rw m (h m)
    | inr n ↦ rw n (record {
      id = refl;
      resource_type = refl;
      resource_id = refl;
      operation = refl;
      active = λ e. e;
    })
  ]

  -- What a calm change does to a test that it cannot make true.
  any-update :
      (q : ResourceOperation → Bool)
      → ((old op : ResourceOperation) → IsCalm old op → q old ≡ false → q op ≡ false)
      → (ops : List ResourceOperation) → AllCalm matches change ops
      → any q ops ≡ false
      → any q (update_where matches change ops) ≡ false
  unfolding changed
  any-update q keep [] calm h = refl
  any-update q keep (op ∷ ops) (c, calm) h =
      ground (arith, keep op (changed op) (IsCalm-changed op c), any-update q keep ops calm)

  unique_active-update :
      (ops : List ResourceOperation)
      → AllCalm matches change ops
      → HasUniqueActive ops
      → HasUniqueActive (update_where matches change ops)
  unfolding changed
  unique_active-update [] calm h = tt
  unique_active-update (op ∷ ops) (c, calm) (h, hs) = (
    λ live.
        rw ((IsCalm-changed op c).resource_type, (IsCalm-changed op c).resource_id)
          (any-update (active_on op.resource_type op.resource_id)
            (active_on-IsCalm op.resource_type op.resource_id) ops calm
            (h (IsCalm-was_active (IsCalm-changed op c) live))),
    unique_active-update ops calm hs,
  )

  unique_ids-update :
      (ops : List ResourceOperation)
      → AllCalm matches change ops
      → HasUniqueIds ops
      → HasUniqueIds (update_where matches change ops)
  unfolding changed
  unique_ids-update [] calm h = tt
  unique_ids-update (op ∷ ops) (c, calm) (h, hs) = (
    rw (IsCalm-changed op c).id
        (any-update (has_operation_id op.id) (λ old new d e. ground (arith, d.id)) ops calm h),
    unique_ids-update ops calm hs,
  )

-- A calm change of the rows that match keeps the table consistent.
update_where-IsConsistent :
    (matches : ResourceOperation → Bool) (change : ResourceOperation → ResourceOperation)
    (ops : List ResourceOperation)
    → AllCalm matches change ops
    → IsConsistent ops
    → IsConsistent (update_where matches change ops)
update_where-IsConsistent matches change ops calm c = record {
  active = unique_active-update matches change ops calm c.active;
  ids = unique_ids-update matches change ops calm c.ids;
}

-- A row that the predicate leaves out may be changed in any way.
pub all_calm :
    (matches : ResourceOperation → Bool) (change : ResourceOperation → ResourceOperation)
    → ((op : ResourceOperation) → matches op ≡ true → IsCalm op (change op))
    → (ops : List ResourceOperation) → AllCalm matches change ops
all_calm matches change h [] = tt
all_calm matches change h (op ∷ ops) = (h op, all_calm matches change h ops)

AllCalm-of_no_match :
    (matches : ResourceOperation → Bool) (change : ResourceOperation → ResourceOperation)
    (ops : List ResourceOperation)
    → any matches ops ≡ false
    → AllCalm matches change ops
AllCalm-of_no_match matches change [] h = tt
AllCalm-of_no_match matches change (op ∷ ops) h =
    ((λ m. absurd (not_here m)), AllCalm-of_no_match matches change ops (ground arith))
  where
    not_here : matches op ≡ true → ⊥
    not_here m = ground arith

-- A row found by its id is the one row with that id.
pub AllCalm-of_found :
    (change : ResourceOperation → ResourceOperation) (k : ℕ) (ops : List ResourceOperation)
    {found : ResourceOperation}
    → HasUniqueIds ops
    → find_where (has_operation_id k) ops ≡ some found
    → IsCalm found (change found)
    → AllCalm (has_operation_id k) change ops
AllCalm-of_found change k [] u f c = tt
AllCalm-of_found change k (op ∷ ops) {found} (u, us) f c = elim (Bool-cases (op.id == k)) [
  | inl same ↦ (
    (λ _. subst (λ o. IsCalm o (change o)) (sym (found_eq same)) c),
    AllCalm-of_no_match (has_operation_id k) change ops
        (subst (λ n. any (has_operation_id n) ops ≡ false) ((==_iff op.id k).0 same) u),
  )
  | inr other ↦ ((λ m. cc), AllCalm-of_found change k ops us (ground arith) c)
]
  where
    found_eq : (op.id == k) ≡ true → op ≡ found
    found_eq same = ground arith

-- Neither the id nor an active operation on the resource of a new row is in the table.
abbrev pub is_taken : ResourceOperation → List ResourceOperation → Bool
is_taken op ops =
    any (has_operation_id op.id) ops
    || (is_active op.status && any (active_on op.resource_type op.resource_id) ops)

-- What a transaction may do to the table of operations.
pub data TableStep (ops : List ResourceOperation) : List ResourceOperation → Type 0 where
  stays : TableStep ops ops
  updates :
      (matches : ResourceOperation → Bool) (change : ResourceOperation → ResourceOperation)
      → AllCalm matches change ops
      → TableStep ops (update_where matches change ops)
  inserts : (op : ResourceOperation) → is_taken op ops ≡ false → TableStep ops (op ∷ ops)

pub TableStep-IsConsistent :
    {ops new : List ResourceOperation} → TableStep ops new → IsConsistent ops → IsConsistent new
TableStep-IsConsistent stays c = c
TableStep-IsConsistent {ops} (updates matches change calm) c =
    update_where-IsConsistent matches change ops calm c
TableStep-IsConsistent (inserts op free) c = record {
  active = ((λ live. ground arith), c.active);
  ids = (ground arith, c.ids);
}

-- The operation is in the table, and is done or failed.
abbrev pub live_with_id : ℕ → ResourceOperation → Bool
live_with_id k op = op.id == k && is_active op.status

pub record IsSettled (k : ℕ) (ops : List ResourceOperation) : Type 0 where
  pub there : any (has_operation_id k) ops ≡ true
  pub ended : any (live_with_id k) ops ≡ false

any-id_kept :
    (matches : ResourceOperation → Bool) (change : ResourceOperation → ResourceOperation) (k : ℕ)
    (ops : List ResourceOperation)
    → AllCalm matches change ops
    → any (has_operation_id k) ops ≡ true
    → any (has_operation_id k) (update_where matches change ops) ≡ true
unfolding changed
any-id_kept matches change k [] calm h = h
any-id_kept matches change k (op ∷ ops) (c, calm) h =
    ground (arith, (IsCalm-changed matches change op c).id, any-id_kept matches change k ops calm)

pub TableStep-IsSettled :
    (k : ℕ) {ops new : List ResourceOperation}
    → TableStep ops new
    → IsSettled k ops
    → IsSettled k new
TableStep-IsSettled k stays s = s
TableStep-IsSettled k {ops} (updates matches change calm) s = record {
  there = any-id_kept matches change k ops calm s.there;
  ended =
      any-update matches change (live_with_id k) (λ old new d e. ground (arith, d.id, d.active)) ops
        calm s.ended;
}
TableStep-IsSettled k {ops} (inserts op free) s = record {
  there = ground (arith, s.there);
  ended = elim (Bool-cases (op.id == k)) [
    | inl same ↦ absurd (taken ((==_iff op.id k).0 same))
    | inr other ↦ rw other s.ended
  ];
}
  where
    taken : op.id ≡ k → ⊥
    taken e = ground (arith, subst (λ n. any (has_operation_id n) ops ≡ true) (sym e) s.there)
