-- ===== src/Bond/Queries/Climb.antt =====
-- The walk from a slice to the root of its range (src/app/bond/db.rs).
use mostro.Prelude.{ℕ, zero, suc, ◌<◌, ◌≡◌, refl, sym, ◌↔◌, Option, none, some, arith}
use mostro.Result.{Result, ok, err}
use mostro.Bond.Env.{Env, Order}
use mostro.Bond.Queries.{
  climb, climb_from, from_parent, find_range_root_order, max_range_chain_depth,
}

-- An order with no parent, or one whose parent is not in the table.
pub data IsRoot (env : Env) (order : Order) : Type 0 where
  rooted : order.range_parent_id ≡ none → IsRoot env order
  orphaned :
      (parent_id : ℕ)
      → order.range_parent_id ≡ some parent_id
      → env.order_by_id parent_id ≡ ok none
      → IsRoot env order

-- The root is that many parents up.
pub data Climbs (env : Env) : ℕ → Order → Order → Type 0 where
  arrives : (order : Order) → IsRoot env order → Climbs env 0 order order
  climbs :
      (n parent_id : ℕ) (order parent root : Order)
      → order.range_parent_id ≡ some parent_id
      → env.order_by_id parent_id ≡ ok (some parent)
      → Climbs env n parent root
      → Climbs env (suc n) order root

abbrev Within : Env → ℕ → Order → Order → Type 0
Within env left order root = (n : ℕ) × (n < left) × Climbs env n order root

module _ (env : Env) where
  at_root :
      (left : ℕ) (order root : Order)
      → IsRoot env order
      → ok order ≡ ok root
      → Within env (suc left) order root
  at_root left order root is_root h =
      let same : order ≡ root = cc in (0, ground arith, rw (sym same) (arrives order is_root))

  step_down :
      (left parent_id : ℕ) (order root : Order) (found : Result (Option Order))
      → order.range_parent_id ≡ some parent_id
      → env.order_by_id parent_id ≡ found
      → ((parent : Order) → climb left env parent ≡ ok root → Within env left parent root)
      → from_parent (climb left env) order found ≡ ok root
      → Within env (suc left) order root
  step_down left parent_id order root (err e) has found again h = absurd (ground arith)
  step_down left parent_id order root (ok none) has found again h =
      at_root left order root (orphaned parent_id has found) h
  step_down left parent_id order root (ok (some parent)) has found again h =
      let (n, below, path) = again parent h in
      (suc n, ground arith, climbs n parent_id order parent root has found path)

  step_from :
      (left : ℕ) (order root : Order) (parent_id : Option ℕ)
      → order.range_parent_id ≡ parent_id
      → ((parent : Order) → climb left env parent ≡ ok root → Within env left parent root)
      → climb_from env (climb left env) order parent_id ≡ ok root
      → Within env (suc left) order root
  step_from left order root none has again h = at_root left order root (rooted has) h
  step_from left order root (some parent_id) has again h =
      step_down left parent_id order root _ has refl again h

  climb-Within :
      (left : ℕ) (order root : Order) → climb left env order ≡ ok root → Within env left order root
  unfolding climb
  climb-Within zero order root h = absurd (ground arith)
  climb-Within (suc left) order root h =
      step_from left order root _ refl (λ parent. climb-Within left parent root) h

  climb-root : (left : ℕ) (order : Order) → IsRoot env order → climb (suc left) env order ≡ ok order
  unfolding climb
  climb-root left order (rooted h) = rw h refl
  climb-root left order (orphaned parent_id has missing) = rw (has, missing) refl

  Climbs-climb :
      (n left : ℕ) (order root : Order)
      → n < left
      → Climbs env n order root
      → climb left env order ≡ ok root
  unfolding climb
  Climbs-climb n zero order root h k = absurd (ground arith)
  Climbs-climb zero (suc left) _ _ h (arrives order is_root) = climb-root left order is_root
  Climbs-climb (suc _) (suc left) _ _ h (climbs n parent_id order parent root has found path) =
      rw (has, found) (Climbs-climb n left parent root (ground arith) path)

  -- The walk answers exactly the order that is reached by following the parents, to the first one
  -- that has none in the table, where that takes fewer than 1,024 steps; it answers an error where
  -- there is no such order, as on a cycle.
  pub find_range_root_order-Climbs :
      (order root : Order)
      → (find_range_root_order env order ≡ ok root)
        ↔ ((n : ℕ) × (n < max_range_chain_depth) × Climbs env n order root)
  unfolding find_range_root_order
  find_range_root_order-Climbs order root = (
    climb-Within max_range_chain_depth order root,
    λ h. Climbs-climb h.0 max_range_chain_depth order root h.1 h.2,
  )
