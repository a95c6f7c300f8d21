-- ===== src/Worker.antt =====
-- presentation/pricing_worker/main.py: the worker's loop over ownership changes, and the consumer
-- task of a shard. A task that ends with an exception while the loop waits cancels the loop, which
-- has then taken the changes before.
pub mod Serving
use price_streaming.Prelude.{
  Action, List, Outcome, String, [], continue, difference, elem, if◌then◌else◌, modify, ok, raise,
  runtime_error, ℕ, ℕ_eq, ◌++◌, ◌+◌, ◌>>◌, ◌∷◌,
}
use price_streaming.Ownership.{PricingShardId, OwnershipChange, acquired, released}
use price_streaming.Delivery.{Delivery}
use price_streaming.Pricing.{Pricing, Env, handle_registered, restore_shard, release_shard}

-- `shard_tasks` by its keys: the shards whose consumer task runs. `stopped` counts the tasks that
-- were cancelled and awaited.
pub record Runtime : Type 0 where
  pub tasks : List PricingShardId
  pub stopped : ℕ
  pub pricing : Pricing

-- What the worker is given: how a request id becomes a shard, what awaiting the cancelled task of a
-- released shard gives (`ok` for `CancelledError`, which is caught, and for a task that has returned,
-- `raise` for any other exception), and the port's `complete`.
pub record Ports : Type 0 where
  pub resolve : String → PricingShardId
  pub await_task : OwnershipChange → Outcome Unit
  pub complete : OwnershipChange → Outcome Unit

unfoldable pub finish : Ports → OwnershipChange → Action Runtime Unit
finish ports c r = (ports.complete c, r)

module _ (env : Env) (ports : Ports) where
  -- The case of `PricingShardAcquired`.
  unfoldable pub acquire : PricingShardId → Action Runtime Unit
  acquire shard r =
      if elem shard r.tasks
      then (raise runtime_error, r)
      else (let (o, p) = restore_shard ports.resolve shard env r.pricing in
          elim o [
            | raise x ↦ (raise x, record r { pricing = p })
            | ok _ ↦ (ok tt, record r { pricing = p; tasks = r.tasks ++ shard ∷ [] })
          ])

  -- `shard_tasks.pop`, `cancel` and `await task`; without a task there is nothing to wait for.
  unfoldable pub stop_task : (c : OwnershipChange) (shard : PricingShardId) → Action Runtime Unit
  stop_task c shard r =
      if elem shard r.tasks
      then (
        ports.await_task c,
        record r { tasks = difference r.tasks (shard ∷ []); stopped = r.stopped + 1 },
      )
      else (ok tt, r)

  -- The case of `PricingShardReleased`: an exception of the task leaves the sessions as they are.
  unfoldable pub release : (c : OwnershipChange) (shard : PricingShardId) → Action Runtime Unit
  release c shard =
      stop_task c shard
      >> modify (λ r. record r { pricing = release_shard ports.resolve shard r.pricing })

  -- The body of the loop of `run_owned_pricing_shards`.
  unfoldable pub on_change : OwnershipChange → Action Runtime Unit
  on_change (acquired t shard) = acquire shard >> finish ports (acquired t shard)
  on_change (released t shard) = release (released t shard) shard >> finish ports (released t shard)

  -- The loop, over the changes that the ownership yields.
  unfoldable pub run_owned_pricing_shards : List OwnershipChange → Action Runtime Unit
  run_owned_pricing_shards [] r = (ok tt, r)
  run_owned_pricing_shards (c ∷ cs) r =
      continue (on_change c r).0 (on_change c r).1 (λ _. run_owned_pricing_shards cs)

-- `consume_rfq_domain_events_for_pricing_shard` over the deliveries that a shard's subscription
-- yields: each is handled, then acked; what raises ends the task. `W` is the state that handler and
-- broker share.
module _ {W : Type 0} (handle ack : Delivery → Action W Unit) where
  unfoldable pub consume : List Delivery → Action W Unit
  consume [] w = (ok tt, w)
  consume (d ∷ ds) w =
      continue (handle d w).0 (handle d w).1
        (λ _ w'. continue (ack d w').0 (ack d w').1 (λ _. consume ds))
