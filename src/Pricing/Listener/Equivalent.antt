-- ===== src/Pricing/Listener/Equivalent.antt =====
-- The rebalance listener against the use cases that release and restore one shard.
use price_streaming.Prelude.{
  ==_iff, Action, Bool-cases, List, Option, Option-cases, String, String_eq, [], any, arith,
  continue, elem, if◌then◌else◌, inl, inr, length, none, ok, refl, some, sorted, sym, ℕ, ℕ_eq, ◌&&◌,
  ◌<◌, ◌==◌, ◌∙◌, ◌∷◌, ◌≡◌,
}
use price_streaming.Dict
use price_streaming.Dict.{any-of_get, get-put, get-remove}
use price_streaming.Session.{PricingSession}
use price_streaming.Session.Store.{list_active}
use price_streaming.Routing.Partitions.{partition_for}
use price_streaming.Pricing.{
  Registry, Pricing, Env, register, unregister, list_all, release_shard, restore_sessions,
  restore_shard,
}
use price_streaming.Pricing.Release.{IsKeyed, get-release_shard}
use price_streaming.Pricing.Restore.{find_last, first_some, get-restore_sessions, restore_shard_ok}
use price_streaming.Pricing.Listener.{
  RebalanceListener, TopicPartition, listener_assigned, listener_revoked, partition_ids,
  release_revoked, restore_assigned,
}

-- The use cases for one shard after the other.
unfoldable pub release_all : (String → ℕ) → List ℕ → Pricing → Pricing
release_all resolve [] s = s
release_all resolve (p ∷ ps) s = release_all resolve ps (release_shard resolve p s)

unfoldable pub restore_all : (String → ℕ) → Env → List ℕ → Action Pricing Unit
restore_all resolve env [] s = (ok tt, s)
restore_all resolve env (p ∷ ps) s =
    continue (restore_shard resolve p env s).0 (restore_shard resolve p env s).1
      (λ _. restore_all resolve env ps)

module _ (resolve : String → ℕ) where
  IsKeyed-release_shard :
      (p : ℕ) (s : Pricing) → IsKeyed s.registry → IsKeyed (release_shard resolve p s).registry
  IsKeyed-release_shard p s k j v h = k j v (ground (arith, h, get-release_shard resolve p s j k))

  get-release_all :
      (ps : List ℕ) (s : Pricing) (j : String)
      → IsKeyed s.registry
      → Dict.get (release_all resolve ps s).registry j
        ≡ (if elem (resolve j) ps then none else Dict.get s.registry j)
  unfolding release_all
  get-release_all [] s j k = refl
  get-release_all (p ∷ ps) s j k = ground (
    arith,
    get-release_all ps (release_shard resolve p s) j (IsKeyed-release_shard p s k),
    get-release_shard resolve p s j k,
  )

  first_some-twice : (a b : Option PricingSession) → first_some a (first_some a b) ≡ first_some a b
  first_some-twice (some s) b = refl
  first_some-twice none b = refl

  get-restore_all :
      (env : Env) (ss : List PricingSession) (ps : List ℕ) (s : Pricing) (j : String)
      → list_active env.texts s.table ≡ ok ss
      → Dict.get (restore_all resolve env ps s).1.registry j ≡ (
          if elem (resolve j) ps
          then first_some (find_last j ss) (Dict.get s.registry j)
          else Dict.get s.registry j)
  unfolding restore_all
  get-restore_all env ss [] s j h = refl
  get-restore_all env ss (p ∷ ps) s j h =
      let next : Pricing = record s { registry = restore_sessions resolve p ss s.registry } in
      rw (restore_all, restore_shard_ok env resolve p s ss h)
        (ground (
          arith,
          get-restore_all env ss ps next j h,
          get-restore_sessions resolve p ss s.registry j,
          first_some-twice (find_last j ss) (Dict.get s.registry j),
        ))

module _ (partitioner : String → List ℕ → ℕ) (l : RebalanceListener) where
  abbrev pub partition_of : String → ℕ
  partition_of request_id = partitioner request_id (sorted l.all_partitions)

  partition_for_some :
      (ps : List ℕ) (request_id : String)
      → 0 < length ps
      → partition_for partitioner request_id ps ≡ ok (partitioner request_id (sorted ps))
  unfolding partition_for
  partition_for_some [] request_id h = absurd (omega arith)
  partition_for_some (p ∷ ps) request_id h = refl

  get-release_revoked :
      (revoked : List ℕ) (ss : List PricingSession) (reg : Registry) (j : String)
      → 0 < length l.all_partitions
      → Dict.get (release_revoked partitioner l revoked ss reg).1 j ≡ (
          if any (λ s. s.request.request_id == j) ss && elem (partition_of j) revoked
          then none
          else Dict.get reg j)
  unfolding release_revoked unregister
  get-release_revoked revoked [] reg j h = refl
  get-release_revoked revoked (s ∷ ss) reg j h =
      let id = s.request.request_id in
      rw (release_revoked, partition_for_some l.all_partitions id h)
        (elim (Bool-cases (elem (partition_of id) revoked)) [
          | inl here ↦ rw here (
              ground (
                arith,
                get-release_revoked revoked ss (Dict.remove reg id) j h,
                get-remove reg id j,
                ==_iff id j,
              ))
          | inr other ↦
              rw other (ground (arith, get-release_revoked revoked ss reg j h, ==_iff id j))
        ])

  get-restore_assigned :
      (assigned : List ℕ) (ss : List PricingSession) (reg : Registry) (j : String)
      → 0 < length l.all_partitions
      → Dict.get (restore_assigned partitioner l assigned ss reg).1 j ≡ (
          if elem (partition_of j) assigned
          then first_some (find_last j ss) (Dict.get reg j)
          else Dict.get reg j)
  unfolding restore_assigned register find_last
  get-restore_assigned assigned [] reg j h = ground arith
  get-restore_assigned assigned (s ∷ ss) reg j h =
      let id = s.request.request_id in
      rw (restore_assigned, partition_for_some l.all_partitions id h)
        (elim (Bool-cases (elem (partition_of id) assigned)) [
          | inl here ↦ rw here (
              ground (
                arith,
                get-restore_assigned assigned ss (Dict.put reg id s) j h,
                get-put reg id j s,
                ==_iff id j,
              ))
          | inr other ↦
              rw other (ground (arith, get-restore_assigned assigned ss reg j h, ==_iff id j))
        ])

  get-listener_revoked :
      (tps : List TopicPartition) (s : Pricing) (j : String)
      → 0 < length l.all_partitions
      → IsKeyed s.registry
      → Dict.get (listener_revoked partitioner l tps s).1.registry j ≡ (
          if elem (partition_of j) (partition_ids l.topic tps) then none else Dict.get s.registry j)
  unfolding listener_revoked list_all
  get-listener_revoked tps s j h keyed = elim (Option-cases (Dict.get s.registry j)) [
    | inl absent ↦ rw (get-release_revoked, absent) (ground arith)
    | inr (session, found) ↦
        rw (get-release_revoked, found)
          (ground (
            arith,
            any-of_get (λ s'. s'.request.request_id == j) s.registry j found,
            keyed j session found,
            ==_iff session.request.request_id j,
          ))
  ]

  -- For a registry whose sessions stand under their own ids, readable active rows and a topic that has
  -- a partition: the listener leaves the registry as the use cases do that release, or restore,
  -- the shards of the listener's topic one after the other, where the shard of a request is its partition.
  pub rebalance_as_use_cases :
      (env : Env) (tps : List TopicPartition) (s : Pricing) (ss : List PricingSession) (j : String)
      → 0 < length l.all_partitions
      → IsKeyed s.registry
      → list_active env.texts s.table ≡ ok ss
      → (Dict.get (listener_revoked partitioner l tps s).1.registry j
          ≡ Dict.get (release_all partition_of (partition_ids l.topic tps) s).registry j)
        × (Dict.get (listener_assigned partitioner l env tps s).1.registry j
            ≡ Dict.get (restore_all partition_of env (partition_ids l.topic tps) s).1.registry j)
  unfolding listener_assigned
  rebalance_as_use_cases env tps s ss j h keyed readable = (
    get-listener_revoked tps s j h keyed
        ∙ sym (get-release_all partition_of (partition_ids l.topic tps) s j keyed),
    rw (listener_assigned, readable)
        (get-restore_assigned (partition_ids l.topic tps) ss s.registry j h
          ∙ sym (get-restore_all partition_of env ss (partition_ids l.topic tps) s j readable)),
  )
