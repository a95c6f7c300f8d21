-- ===== src/Ownership/Rebalance.antt =====
-- infrastructure/application/pricing/adapter/pricing_shared_ownership/kafka: the rebalance callbacks
-- of the consumer group wait until the worker has carried out the changes.
pub mod Waiting
pub mod Liveness
use price_streaming.Prelude.{
  Action, Bool, List, Option, String, String_eq, [], false, if◌then◌else◌, length, none, ok, raise,
  runtime_error, some, true, ℕ, ◌++◌, ◌+◌, ◌==◌, ◌∷◌,
}
use price_streaming.Dict
use price_streaming.Dict.{Dict, get-put, get-remove}
use price_streaming.Ownership.{
  TransitionId, OwnershipChange, acquired, released, transition_id, PricingShardId,
}

-- An `asyncio.Future`.
pub data FutureState : Type 0 where
  waiting done cancelled : FutureState

-- `KafkaPricingShardOwnership`. The future of a transition stays with its callback after it is
-- taken out of `completions`, so `futures` keeps them all.
pub record RebalanceOwnership : Type 0 where
  pub topic : String
  pub changes : List OwnershipChange
  pub completions : Dict TransitionId Unit
  pub futures : Dict TransitionId FutureState
  pub issued : ℕ

-- `future.done()`
unfoldable pub is_done : Option FutureState → Bool
is_done none = false
is_done (some waiting) = false
is_done (some done) = true
is_done (some cancelled) = true

-- `complete`
unfoldable pub complete : OwnershipChange → Action RebalanceOwnership Unit
unfolding is_done
complete c o = elim (Dict.get o.completions (transition_id c)) [
  | none ↦ (raise runtime_error, o)
  | some _ ↦
      if is_done (Dict.get o.futures (transition_id c))
      then (ok tt, o)
      else (ok tt, record o { futures = Dict.put o.futures (transition_id c) done })
]

-- The changes of `on_partitions_revoked` and `on_partitions_assigned`: one for each partition of
-- the topic, under a fresh id.
unfoldable pub changes_of :
    (uuid : ℕ → TransitionId)
    → (TransitionId → PricingShardId → OwnershipChange)
    → (topic : String) → ℕ
    → List (String × ℕ)
    → List OwnershipChange
changes_of uuid kind topic n [] = []
changes_of uuid kind topic n ((t, p) ∷ rest) =
    if t == topic
    then kind (uuid n) p ∷ changes_of uuid kind topic (n + 1) rest
    else changes_of uuid kind topic n rest

-- The first loop of `_publish_and_wait`.
unfoldable pub publish : List OwnershipChange → RebalanceOwnership → RebalanceOwnership
publish [] o = o
publish (c ∷ cs) o = publish cs (record o {
  completions = Dict.put o.completions (transition_id c) tt;
  futures = Dict.put o.futures (transition_id c) waiting;
  changes = o.changes ++ c ∷ [];
})

unfoldable pub on_partitions_revoked :
    (uuid : ℕ → TransitionId)
    → List (String × ℕ)
    → RebalanceOwnership
    → List OwnershipChange × RebalanceOwnership
unfolding changes_of publish
on_partitions_revoked uuid revoked o =
    let cs = changes_of uuid released o.topic o.issued revoked in
    (cs, publish cs (record o { issued = o.issued + length cs }))

unfoldable pub on_partitions_assigned :
    (uuid : ℕ → TransitionId)
    → List (String × ℕ)
    → RebalanceOwnership
    → List OwnershipChange × RebalanceOwnership
unfolding changes_of publish
on_partitions_assigned uuid assigned o =
    let cs = changes_of uuid acquired o.topic o.issued assigned in
    (cs, publish cs (record o { issued = o.issued + length cs }))

-- What `asyncio.gather` of the futures is waiting for: it returns when all are done by a result,
-- and raises when one is cancelled.
pub data Gathered : Type 0 where
  blocked returns raises : Gathered

unfoldable pub gather : List OwnershipChange → RebalanceOwnership → Gathered
gather [] o = returns
gather (c ∷ cs) o =
    let rest = gather cs o in
    elim (Dict.get o.futures (transition_id c)) [
      | none ↦ blocked
      | some f ↦ elim f [
        | waiting ↦ elim rest [ raises ↦ raises | _ ↦ blocked ]
        | cancelled ↦ raises
        | done ↦ rest
      ]
    ]

-- The `finally` of `_publish_and_wait`.
unfoldable pub forget : List OwnershipChange → RebalanceOwnership → RebalanceOwnership
forget [] o = o
forget (c ∷ cs) o =
    forget cs (record o { completions = Dict.remove o.completions (transition_id c) })

-- `changes`: the next change for the worker, if there is one.
unfoldable pub next_change : RebalanceOwnership → Option OwnershipChange × RebalanceOwnership
next_change o = elim o.changes [ [] ↦ (none, o) | c ∷ cs ↦ (some c, record o { changes = cs }) ]

-- `cancel_pending`
unfoldable pub cancel_all :
    Dict TransitionId Unit → Dict TransitionId FutureState → Dict TransitionId FutureState
unfolding is_done
cancel_all [] futures = futures
cancel_all ((t, _) ∷ rest) futures =
    cancel_all rest (if is_done (Dict.get futures t) then futures else Dict.put futures t cancelled)

unfoldable pub cancel_pending : RebalanceOwnership → RebalanceOwnership
unfolding cancel_all
cancel_pending o = record o { futures = cancel_all o.completions o.futures }
