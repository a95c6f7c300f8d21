-- ===== src/Ownership/Lease/Cluster.antt =====
-- Several workers over one lease table. Each renewal and each claim is one transaction, and they
-- interleave in any order, while time passes.
use price_streaming.Prelude.{
  ==_iff, All, Bool, Bool-cases, List, Option, Option-cases, String, String_eq, [], ap, arith,
  difference, elem, elem-filter, false, if◌then◌else◌, inl, inr, length, none, not, refl, some,
  subst, suc, true, zero, ℕ, ℕ_eq, ◌&&◌, ◌+◌, ◌-◌, ◌<◌, ◌==◌, ◌∷◌, ◌≡◌, ◌⊎◌,
}
use price_streaming.Dict
use price_streaming.Dict.{Dict, keys, IsFunctional}
use price_streaming.Ownership.{PricingShardId}
use price_streaming.Ownership.Lease.{
  LeaseRow, LeaseTable, Coordinator, is_owner, renewed_row, renew_rows, renew_owned, is_available,
  candidates, claimed_row, claim_rows, claim_available, add_all,
}
use price_streaming.Ownership.Lease.Rows.{
  owns, on_row, get-renew_rows, elem-renew_rows, get-claim_rows, All-candidates, row_of_key,
}
use price_streaming.Ownership.Lease.Round.{
  elem-add_all, renew_rows-IsFunctional, claim_rows-IsFunctional,
}

-- `owned w` is the set that worker `w` keeps in memory, and `granted w j` the expiry that `w` wrote
-- last into the row of shard `j`.
pub record Cluster : Type 0 where
  pub now : ℕ
  pub table : LeaseTable
  pub owned : String → List PricingShardId
  pub granted : String → PricingShardId → ℕ

pub record Limits : Type 0 where
  pub lease_duration : ℕ
  pub max_shards : ℕ

unfoldable pub coordinator : Limits → Cluster → String → Coordinator
coordinator l s w = record {
  worker_id = w;
  lease_duration = l.lease_duration;
  max_shards = l.max_shards;
  owned = s.owned w;
}

-- Worker `w` now owns `shards`, and has written the expiry into the rows of `written`.
unfoldable pub set_worker :
    Limits → Cluster → String → LeaseTable → List PricingShardId → List PricingShardId → Cluster
set_worker l s w table shards written = record s {
  table = table;
  owned = λ w'. if w == w' then shards else s.owned w';
  granted = λ w' j. if w == w' && elem j written then s.now + l.lease_duration else s.granted w' j;
}

unfoldable pub renew : Limits → Cluster → String → Cluster
unfolding set_worker coordinator
renew l s w =
    let (table, lost) = renew_owned (coordinator l s w) s.now s.table in
    let kept = difference (s.owned w) lost in set_worker l s w table kept kept

unfoldable pub claim : Limits → Cluster → String → (PricingShardId → Bool) → Cluster
unfolding set_worker coordinator
claim l s w locked =
    let limit = l.max_shards - length (s.owned w) in
    let (table, taken) = claim_available (coordinator l s w) s.now locked limit s.table in
    set_worker l s w table (add_all taken (s.owned w)) taken

pub data Step (l : Limits) (s : Cluster) : Cluster → Type 0 where
  tick : (n : ℕ) → Step l s (record s { now = s.now + n })
  renewed : (w : String) → Step l s (renew l s w)
  claimed : (w : String) (locked : PricingShardId → Bool) → Step l s (claim l s w locked)

pub data Reach (l : Limits) (s : Cluster) : Cluster → Type 0 where
  here : Reach l s s
  next : {t u : Cluster} → Reach l s t → Step l t u → Reach l s u

-- Worker `w` holds the lease of shard `j` as it wrote it.
abbrev pub HasLease : String → ℕ → Option LeaseRow → Type 0
HasLease w expiry none = ⊥
HasLease w expiry (some row) = (row.owner_id ≡ some w) × (row.lease_until ≡ some expiry)

pub record IsSafe (s : Cluster) : Type 0 where
  pub functional : IsFunctional s.table
  pub leased :
      (w : String) (j : PricingShardId)
      → elem j (s.owned w) ≡ true
      → HasLease w (s.granted w j) (Dict.get s.table j) ⊎ (s.granted w j < s.now)

tick-IsSafe : (s : Cluster) (n : ℕ) → IsSafe s → IsSafe (record s { now = s.now + n })
tick-IsSafe s n h = record {
  functional = h.functional;
  leased = λ w j m. elim (h.leased w j m) [ inl kept ↦ inl kept | inr late ↦ inr (omega arith) ];
}

-- The lease of one worker is no lease of another.
owns-HasLease :
    (w w' : String) (g : ℕ) (o : Option LeaseRow) → HasLease w' g o → owns w o ≡ (w' == w)
unfolding owns is_owner
owns-HasLease w w' g none h = absurd h
owns-HasLease w w' g (some row) h = ground (arith, h.0)

HasLease-renewed :
    (w : String) (g : ℕ) (o : Option LeaseRow)
    → owns w o ≡ true
    → HasLease w g (on_row (renewed_row g) o)
unfolding owns is_owner renewed_row
HasLease-renewed w g none h = absurd (cc h)
HasLease-renewed w g (some row) h = elim (Option-cases row.owner_id) [
  | inl free ↦ absurd (ground (arith, h, free))
  | inr (v, e) ↦ (ground (arith, h, e, ==_iff v w), refl)
]

HasLease-claimed :
    (w : String) (g : ℕ) (o : Option LeaseRow) (row : LeaseRow)
    → o ≡ some row
    → HasLease w g (on_row (claimed_row w g) o)
unfolding claimed_row
HasLease-claimed w g none row h = absurd (cc h)
HasLease-claimed w g (some row') row h = (refl, refl)

-- A lease that can be claimed by another has run out.
is_available-late :
    (w : String) (g now : ℕ) (o : Option LeaseRow) (row : LeaseRow)
    → HasLease w g o
    → o ≡ some row
    → is_available now row ≡ true
    → g < now
unfolding is_available
is_available-late w g now none row h e a = absurd h
is_available-late w g now (some row') row h e a =
    let e' : row' ≡ row = cc e in
    ground (
      arith,
      h.0,
      h.1,
      ap (λ (r : LeaseRow). r.owner_id) e',
      ap (λ (r : LeaseRow). r.lease_until) e',
      a,
    )

entries :
    (t : LeaseTable) (p : PricingShardId × LeaseRow → Bool) (rows : LeaseTable)
    → All (λ kv. (Dict.get t kv.0 ≡ some kv.1) × (p kv ≡ true)) rows
    → All (λ kv. Dict.get t kv.0 ≡ some kv.1) rows
entries t p [] h = tt
entries t p (x ∷ xs) h = (h.0.0, entries t p xs h.1)

module _ (l : Limits) (s : Cluster) (w : String) (safe : IsSafe s) where
  set_worker-IsSafe :
      (table : LeaseTable) (shards written : List PricingShardId)
      → IsFunctional table
      → ((j : PricingShardId)
          → elem j shards ≡ true
          → HasLease w
              (if elem j written then s.now + l.lease_duration else s.granted w j)
              (Dict.get table j)
            ⊎ ((if elem j written then s.now + l.lease_duration else s.granted w j) < s.now))
      → ((w' : String) (j : PricingShardId)
          → (w == w') ≡ false
          → HasLease w' (s.granted w' j) (Dict.get s.table j)
          → HasLease w' (s.granted w' j) (Dict.get table j) ⊎ (s.granted w' j < s.now))
      → IsSafe (set_worker l s w table shards written)
  unfolding set_worker
  set_worker-IsSafe table shards written f own others = record {
    functional = f;
    leased = λ w' j m. elim (Bool-cases (w == w')) [
      | inl same ↦ rw (same) (
          subst
            (λ v.
              HasLease v (if elem j written then s.now + l.lease_duration else s.granted v j)
                (Dict.get table j)
              ⊎ ((if elem j written then s.now + l.lease_duration else s.granted v j) < s.now))
            ((==_iff w w').0 same) (own j (rw same at m)))
      | inr other ↦ rw other (elim (safe.leased w' j (rw other at m)) [
        | inl lease ↦ others w' j other lease
        | inr late ↦ inr late
      ])
    ];
  }

  renew-IsSafe : IsSafe (renew l s w)
  unfolding renew renew_owned coordinator
  renew-IsSafe =
      let expiry = s.now + l.lease_duration in
      let kept =
        difference (s.owned w)
          (difference (s.owned w) (renew_rows w expiry (s.owned w) s.table).1) in
      set_worker-IsSafe (renew_rows w expiry (s.owned w) s.table).0 kept kept
        (renew_rows-IsFunctional w expiry (s.owned w) s.table safe.functional)
        (λ j m. inl (
          let mine : (elem j (s.owned w) && owns w (Dict.get s.table j)) ≡ true = ground (
            arith,
            m,
            elem-filter
                (λ x.
                  not (elem x (difference (s.owned w) (renew_rows w expiry (s.owned w) s.table).1)))
                j (s.owned w),
            elem-filter (λ x. not (elem x (renew_rows w expiry (s.owned w) s.table).1)) j
                (s.owned w),
            elem-renew_rows w expiry (s.owned w) s.table j,
          ) in
          rw (m, get-renew_rows w expiry (s.owned w) s.table j, mine)
            (HasLease-renewed w expiry (Dict.get s.table j) (ground (arith, mine)))))
        (λ w' j other lease. inl (
          let e : Dict.get (renew_rows w expiry (s.owned w) s.table).0 j ≡ Dict.get s.table j =
            ground (
              arith,
              get-renew_rows w expiry (s.owned w) s.table j,
              owns-HasLease w w' (s.granted w' j) (Dict.get s.table j) lease,
              other,
              ==_iff w' w,
              ==_iff w w',
            ) in
          rw e lease))

  claim_at-IsSafe :
      (locked : PricingShardId → Bool) (limit : ℕ)
      → IsSafe (
          set_worker l s w
            (claim_available (coordinator l s w) s.now locked limit s.table).0
            (add_all (claim_available (coordinator l s w) s.now locked limit s.table).1 (s.owned w))
            (claim_available (coordinator l s w) s.now locked limit s.table).1)
  unfolding claim_available coordinator add_all
  claim_at-IsSafe locked zero =
      set_worker-IsSafe s.table (s.owned w) [] safe.functional (safe.leased w)
        (λ w' j other lease. inl lease)
  claim_at-IsSafe locked (suc limit) =
      let expiry = s.now + l.lease_duration in
      let rows = candidates s.now locked (suc limit) s.table in
      let sound = All-candidates s.now locked (suc limit) s.table safe.functional in
      let after = λ (j : PricingShardId).
        get-claim_rows w expiry s.table rows s.table j (entries s.table _ rows sound) in
      set_worker-IsSafe (claim_rows w expiry rows s.table) (add_all (keys rows) (s.owned w))
        (keys rows) (claim_rows-IsFunctional w expiry rows s.table safe.functional)
        (λ j m. elim (Bool-cases (elem j (keys rows))) [
          | inl taken ↦
              let (row, facts) = row_of_key _ rows j sound taken in
              inl (
                rw (taken, after j, taken)
                  (HasLease-claimed w expiry (Dict.get s.table j) row facts.0))
          | inr left ↦
              rw (left, after j, left)
                (safe.leased w j (ground (arith, m, left, elem-add_all (keys rows) (s.owned w) j)))
        ])
        (λ w' j other lease. elim (Bool-cases (elem j (keys rows))) [
          | inl taken ↦
              let (row, facts) = row_of_key _ rows j sound taken in
              inr (
                is_available-late w' (s.granted w' j) s.now (Dict.get s.table j) row lease facts.0
                  (ground (arith, facts.1)))
          | inr left ↦ inl (rw (after j, left) lease)
        ])

-- From a cluster that is safe, every cluster that the workers reach is.
Step-IsSafe : {l : Limits} {s t : Cluster} → Step l s t → IsSafe s → IsSafe t
unfolding claim
Step-IsSafe {s} (tick n) h = tick-IsSafe s n h
Step-IsSafe {l} {s} (renewed w) h = renew-IsSafe l s w h
Step-IsSafe {l} {s} (claimed w locked) h =
    claim_at-IsSafe l s w h locked (l.max_shards - length (s.owned w))

pub Reach-IsSafe : {l : Limits} {s t : Cluster} → Reach l s t → IsSafe s → IsSafe t
Reach-IsSafe here h = h
Reach-IsSafe (next r st) h = Step-IsSafe st (Reach-IsSafe r h)

-- One row has one lease.
HasLease-unique :
    (w w' : String) (g g' : ℕ) (o : Option LeaseRow) → HasLease w g o → HasLease w' g' o → w ≡ w'
HasLease-unique w w' g g' none h h' = absurd h
HasLease-unique w w' g g' (some row) h h' = ground (arith, h.0, h'.0)

-- However renewals and claims of several workers interleave from a cluster that is safe, one with
-- no owned shards for instance: two workers that both take a shard for theirs are one worker, or
-- the lease that one of them was granted has run out.
pub exclusive_leases :
    (l : Limits) (s t : Cluster) (w w' : String) (j : PricingShardId)
    → IsSafe s
    → Reach l s t
    → elem j (t.owned w) ≡ true
    → elem j (t.owned w') ≡ true
    → (w ≡ w') ⊎ ((t.granted w j < t.now) ⊎ (t.granted w' j < t.now))
exclusive_leases l s t w w' j h r m m' =
    let safe = Reach-IsSafe r h in
    elim (safe.leased w j m) [
      | inr late ↦ inr (inl late)
      | inl lease ↦ elim (safe.leased w' j m') [
        | inr late ↦ inr (inr late)
        | inl lease' ↦ inl (
            HasLease-unique w w' (t.granted w j) (t.granted w' j) (Dict.get t.table j) lease lease')
      ]
    ]
