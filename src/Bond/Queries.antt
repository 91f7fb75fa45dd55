-- ===== src/Bond/Queries.antt =====
-- The queries of the slashing and release handlers (src/app/bond/db.rs, src/app/bond/slash.rs).
pub mod Climb
use text.Mathlib.Text.{◌==◌ as str_eq}
use mostro.Prelude.{
  ℕ, zero, suc, String, Bool, true, false, ◌&&◌, ◌||◌, Option, none, some, List, [], ◌∷◌, ◌++◌,
  if◌then◌else◌, keep, is_none, is_some, ◌==◌,
}
use mostro.Prelude.Int.{ℤ, pos, ◌+ℤ◌, leb_ℤ, i64_min, i64_max}
use mostro.Result.{Result, ok, err, unexpected, db_access}
use mostro.Bond.Types.{BondRole, requested, locked, maker, show_role}
use mostro.Bond.Model.{Bond}
use mostro.Bond.Table.{
  M, ◌>>=◌, pure, raise, lift, fetch, execute, in_state, first, order_by, older, is_faulty,
  later_faults,
}
use mostro.Bond.Env.{Env, Order}

abbrev pub is_parent_of_order : ℕ → BondRole → Bond → Bool
is_parent_of_order order_id role b =
    b.order_id == order_id && str_eq b.role (show_role role) && is_none b.parent_bond_id

unfoldable pub find_bond_by_order_and_role : ℕ → BondRole → M (Option Bond)
find_bond_by_order_and_role order_id role =
    fetch (λ bs. first (keep (is_parent_of_order order_id role) bs))

abbrev pub is_outstanding : Bond → Bool
is_outstanding b = in_state requested b || in_state locked b

unfoldable pub find_active_bonds_for_order : ℕ → M (List Bond)
find_active_bonds_for_order order_id =
    fetch (λ bs. order_by older (keep (λ b. b.order_id == order_id && is_outstanding b) bs))

unfoldable find_active_bonds : M (List Bond)
find_active_bonds = fetch (λ bs. order_by older (keep is_outstanding bs))

unfoldable find_active_bond_by_taker : ℕ → String → M (Option Bond)
find_active_bond_by_taker order_id key = fetch (λ bs. first (
    order_by older (
      keep
        (λ b.
          b.order_id == order_id
          && str_eq b.pubkey key
          && is_outstanding b
          && is_none b.parent_bond_id)
        bs)))

unfoldable find_locked_maker_parent_bonds : M (List Bond)
find_locked_maker_parent_bonds = fetch (λ bs. order_by older (
    keep (λ b. in_state locked b && str_eq b.role (show_role maker) && is_none b.parent_bond_id)
      bs))

-- The row's own `parent_bond_id`; a NULL equals nothing.
abbrev pub is_id : ℕ → Option ℕ → Bool
is_id id none = false
is_id id (some other) = other == id

unfoldable pub find_child_slashes_for_parent : ℕ → M (List Bond)
find_child_slashes_for_parent parent_id =
    fetch (λ bs. order_by older (keep (λ b. is_id parent_id b.parent_bond_id) bs))

abbrev pub is_slice_child : ℕ → ℕ → Bond → Bool
is_slice_child parent_id slice_id b =
    is_id parent_id b.parent_bond_id && is_id slice_id b.child_order_id

unfoldable pub find_slice_slash_child : ℕ → ℕ → M (Option Bond)
find_slice_slash_child parent_id slice_id =
    fetch (λ bs. first (keep (is_slice_child parent_id slice_id) bs))

abbrev pub max_range_chain_depth : ℕ
max_range_chain_depth = 1024

-- One round of the walk: `again` is the rest of it.
abbrev pub from_parent : (Order → Result Order) → Order → Result (Option Order) → Result Order
from_parent again current (err e) = err e
from_parent again current (ok none) = ok current
from_parent again current (ok (some parent)) = again parent

abbrev pub climb_from : Env → (Order → Result Order) → Order → Option ℕ → Result Order
climb_from env again current none = ok current
climb_from env again current (some parent_id) =
    from_parent again current (env.order_by_id parent_id)

unfoldable pub climb : ℕ → Env → Order → Result Order
climb zero env current = err unexpected
climb (suc left) env current = climb_from env (climb left env) current current.range_parent_id

unfoldable pub find_range_root_order : Env → Order → Result Order
find_range_root_order env order = climb max_range_chain_depth env order

unfoldable pub find_maker_bond_for_order : Env → Order → M (Option Bond)
find_maker_bond_for_order env order =
    lift (find_range_root_order env order) >>= λ root. find_bond_by_order_and_role root.id maker

-- `SET` of every column but `created_at`.
abbrev pub overwrite : Bond → Bond → Bond
overwrite bond b = record bond { created_at = b.created_at }

unfoldable pub update : Bond → M (Unit {0})
update bond = execute (λ b. b.id == bond.id) (overwrite bond) >>= λ rows.
    if rows == 0 then raise db_access else pure tt

-- `INSERT … SELECT … WHERE`, with `rows_affected`.
unfoldable pub insert_where : (List Bond → Bool) → Bond → M ℕ
insert_where guard row w =
    if is_faulty w.faults then (err db_access, record w { faults = later_faults w.faults }) else (
      ok (if guard w.bonds then 1 else 0),
      record w {
        bonds = if guard w.bonds then w.bonds ++ (row ∷ []) else w.bonds;
        faults = later_faults w.faults;
      },
    )

unfoldable pub create_bond : Bond → M Bond
create_bond bond = insert_where (λ _. true) bond >>= λ _. pure bond

-- A statement with a query in it.
unfoldable pub stating : {A : Type 0} → (List Bond → M A) → M A
stating m w = m w.bonds w

-- The slice children of a parent: the refund row has no `child_order_id`.
abbrev pub is_slice_of : ℕ → Bond → Bool
is_slice_of parent_id b = is_id parent_id b.parent_bond_id && is_some b.child_order_id

abbrev pub sum_sats : List Bond → ℤ
sum_sats [] = pos 0
sum_sats (b ∷ bs) = b.amount_sats +ℤ sum_sats bs

-- `SUM(amount_sats)`, which fails where it leaves the range of an `i64`.
unfoldable pub sum_slices : ℕ → List Bond → Result ℤ
sum_slices parent_id bs =
    let total = sum_sats (keep (is_slice_of parent_id) bs) in
    if leb_ℤ i64_min total && leb_ℤ total i64_max then ok total else err db_access

-- `BEGIN`, the statements and `COMMIT`: an error, and a `false`, which is the code's rollback, leave
-- the rows as they were.
unfoldable pub commit : Bool → M Bool
commit commits = if commits then fetch (λ _. true) else pure false

unfoldable pub transaction : M Bool → M (Unit {0})
transaction body w =
    let (r, w') = (fetch (λ _. tt) >>= λ _. body >>= commit) w in
    elim r [
      | ok commits ↦ (ok tt, if commits then w' else record w' { bonds = w.bonds })
      | err e ↦ (err e, record w' { bonds = w.bonds })
    ]

-- The caller logs an error and goes on.
unfoldable pub or_warn : M (Unit {0}) → M (Unit {0})
or_warn m w = (ok tt, (m w).1)
