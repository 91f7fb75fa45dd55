-- ===== src/Orderbook/Stamps.antt =====
-- Consecutive revisions of one order's event never tie (src/util.rs, `monotonic_created_at`).
use mostro.Prelude.{
  ℕ, ◌+◌, ◌^◌, ◌≤◌, ◌<◌, ◌≡◌, refl, ◌⊎◌, inl, inr, Option, none, some, List, [], ◌∷◌, arith, leb,
  length, Bool-cases,
}
use mostro.Prelude.Equality.{nat_eq, beq_refl}
use mostro.Prelude.Map.{
  Map, retained, lookup, Distinct, lookup-insert, lookup-retain, insert-Distinct, retain-Distinct,
}
use mostro.Orderbook.{
  Registry, bumped, is_recent, order_ts_max_age_secs, order_ts_prune_threshold,
  monotonic_created_at, pruned, stamp_locked,
}

-- Stamps of any orders, one after another.
unfoldable pub stamp_all : List (ℕ × ℕ) → Registry → Registry
stamp_all [] r = r
stamp_all ((order_id, candidate) ∷ rest) r = stamp_all rest (stamp_locked r order_id candidate).1

-- Every one of these stamps is dated before `limit`.
abbrev pub AllBefore : ℕ → List (ℕ × ℕ) → Registry → Type 0
AllBefore limit [] r = Unit
AllBefore limit ((order_id, candidate) ∷ rest) r =
    ((stamp_locked r order_id candidate).0.created_at < limit)
    × AllBefore limit rest (stamp_locked r order_id candidate).1

-- A revision dated `ts` is remembered, or is older than `candidate`.
abbrev Covers : ℕ → ℕ → ℕ → Option ℕ → Type 0
Covers ts candidate limit none = ts < candidate
Covers ts candidate limit (some t) = ((ts ≤ t) ⊎ (ts < candidate)) × (t < limit)

pruned-Distinct : (effective : ℕ) (m : Map ℕ ℕ) → Distinct m → Distinct (pruned effective m)
unfolding pruned
pruned-Distinct effective m d = elim (Bool-cases (leb order_ts_prune_threshold (length m))) [
  | inl full ↦ rw full (retain-Distinct (λ _ t. is_recent effective t) m d)
  | inr small_map ↦ rw small_map d
]

module _ (ts candidate limit : ℕ) (near : limit ≤ candidate + order_ts_max_age_secs)
    (small : limit ≤ 2 ^ 63) where
  bumped-Covers :
      (c : ℕ) (o : Option ℕ)
      → Covers ts candidate limit o
      → bumped c o < limit
      → Covers ts candidate limit (some (bumped c o))
  bumped-Covers c none h l = ground arith
  bumped-Covers c (some t) h l = ground arith

  retained-Covers :
      (effective key : ℕ) (o : Option ℕ)
      → Covers ts candidate limit o
      → effective < limit
      → Covers ts candidate limit (retained (λ (_ : ℕ) t. is_recent effective t) key o)
  retained-Covers effective key none h l = h
  retained-Covers effective key (some t) h l = ground arith

  bumped-lt : (o : Option ℕ) → Covers ts candidate limit o → ts < bumped candidate o
  bumped-lt none h = h
  bumped-lt (some t) h = ground arith

  abbrev Remembers : ℕ → Map ℕ ℕ → Type 0
  Remembers id m = Distinct m × Covers ts candidate limit (lookup id m)

  pruned-Remembers :
      (id effective : ℕ) (m : Map ℕ ℕ)
      → Remembers id m
      → effective < limit
      → Remembers id (pruned effective m)
  unfolding pruned
  pruned-Remembers id effective m h l =
      elim (Bool-cases (leb order_ts_prune_threshold (length m))) [
        | inl full ↦ rw full (
          retain-Distinct (λ _ t. is_recent effective t) m h.0,
          rw (lookup-retain (λ _ t. is_recent effective t) id m h.0)
              (retained-Covers effective id (lookup id m) h.1 l),
        )
        | inr small_map ↦ rw small_map h
      ]

  created-Remembers :
      (id key c : ℕ) (m : Map ℕ ℕ)
      → Remembers id m
      → (monotonic_created_at m key c).0 < limit
      → Remembers id (monotonic_created_at m key c).1
  unfolding monotonic_created_at
  created-Remembers id key c m h l =
      let (d, covers) = pruned-Remembers id (bumped c (lookup key m)) m h l in
      (
        insert-Distinct key _ _ d,
        rw lookup-insert (elim (Bool-cases (nat_eq.beq id key)) [
          | inl same ↦
              rw same
                (bumped-Covers c (lookup key m) (rw ((nat_eq.beq_iff id key).0 same) at h.1) l)
          | inr other ↦ rw other covers
        ]),
      )

  stamp_all-Remembers :
      (id : ℕ) (ops : List (ℕ × ℕ)) (r : Registry)
      → Remembers id r.last_ts
      → AllBefore limit ops r
      → Remembers id (stamp_all ops r).last_ts
  unfolding stamp_all stamp_locked
  stamp_all-Remembers id [] r h b = h
  stamp_all-Remembers id ((key, c) ∷ ops) r h b =
      stamp_all-Remembers id ops (stamp_locked r key c).1
        (created-Remembers id key c r.last_ts h b.0) b.1

  stamp-Remembers :
      (id c : ℕ) (r : Registry)
      → Distinct r.last_ts
      → (stamp_locked r id c).0.created_at ≡ ts
      → ts < limit
      → Remembers id (stamp_locked r id c).1.last_ts
  unfolding stamp_locked monotonic_created_at
  stamp-Remembers id c r d e l = (
    insert-Distinct id _ _ (pruned-Distinct _ r.last_ts d),
    rw (lookup-insert, beq_refl id) (inl (omega (arith, e)), omega (arith, e)),
  )

-- Stamp an order, then stamp any orders any number of times, then stamp the first one again: its
-- second revision is dated strictly after its first, also in the same second and also if the
-- registry was pruned in between. The stamps up to the second revision have to be dated before
-- 2^63 and less than 48 hours after the second's candidate, and no order is listed twice.
pub stamp_locked_strict :
    (r : Registry) (id first second limit : ℕ) (between : List (ℕ × ℕ))
    → Distinct r.last_ts
    → limit ≤ second + order_ts_max_age_secs
    → limit ≤ 2 ^ 63
    → AllBefore limit ((id, first) ∷ between) r
    → (stamp_locked r id first).0.created_at
      < (stamp_locked (stamp_all between (stamp_locked r id first).1) id second).0.created_at
stamp_locked_strict r id first second limit between d near small b =
    let ts = (stamp_locked r id first).0.created_at in
    let start = stamp-Remembers ts second limit near small id first r d refl b.0 in
    let later =
      stamp_all-Remembers ts second limit near small id between (stamp_locked r id first).1 start
        b.1 in
    unfold stamp_locked monotonic_created_at in
    bumped-lt ts second limit near small
      (lookup id (stamp_all between (stamp_locked r id first).1).last_ts) later.1
