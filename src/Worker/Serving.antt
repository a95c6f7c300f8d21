-- ===== src/Worker/Serving.antt =====
-- The worker's registry against the shards that it serves.
use price_streaming.Prelude.{
  ==_iff, Bool-cases, List, Outcome, Outcome-cases, PyError, String, String_eq, [], ap, arith, elem,
  elem-append, elem-filter, false, inl, inr, not, ok, raise, runtime_error, some, sym, true, ℕ_eq,
  ◌∙◌, ◌∷◌, ◌≡◌, ◌⊎◌, ◌==◌, refl, subst,
}
use mathlib.Core.List.{Memᴰ}
use mathlib.Core.List.Memᴰ
use price_streaming.Dict
use price_streaming.Ownership.{PricingShardId, OwnershipChange, acquired, released}
use price_streaming.Session.{PricingSession}
use price_streaming.Session.Store.{list_active}
use price_streaming.Pricing.{Pricing, Env}
use price_streaming.Pricing.Release.{get-release_shard}
use price_streaming.Pricing.Restore.{get-restore_shard, restore_shard_fails, restore_shard_ok}
use price_streaming.Pricing.Persist.{IsPersisted, restore_shard-IsPersisted}
use price_streaming.Pricing.Run.{release_shard-IsPersisted}
use price_streaming.Worker.{
  Runtime, Ports, finish, acquire, stop_task, release, on_change, run_owned_pricing_shards,
}

-- A session is registered only if its shard's consumer task runs, and what is registered is stored.
pub record IsServing (env : Env) (ports : Ports) (r : Runtime) : Type 0 where
  pub persisted : IsPersisted env.texts r.pricing
  pub served :
      (j : String) (v : PricingSession)
      → Dict.get r.pricing.registry j ≡ some v
      → elem (ports.resolve j) r.tasks ≡ true

mem_weaken : {c d : OwnershipChange} {cs : List OwnershipChange} → Memᴰ d (c ∷ []) → Memᴰ d (c ∷ cs)
mem_weaken m = elim (Memᴰ.cases_cons m) [
  | inl same ↦ Memᴰ.head same
  | inr none_left ↦ absurd (Memᴰ.not-nil none_left)
]

-- What is known of a shard whose sessions stay registered without a task: awaiting its task raised
-- what the loop raises.
abbrev pub IsLeft : Ports → List OwnershipChange → Outcome Unit → PricingShardId → Type 0
IsLeft ports cs o shard =
    (x : PyError) × (o ≡ raise x)
    × (t : String) × Memᴰ (released t shard) cs
    × (ports.await_task (released t shard) ≡ raise x)

-- What a run over those changes gives.
pub record IsServedBy (env : Env) (ports : Ports) (cs : List OwnershipChange)
    (end : Outcome Unit × Runtime) : Type 0 where
  pub persisted : IsPersisted env.texts end.1.pricing
  pub served :
      (j : String) (v : PricingSession)
      → Dict.get end.1.pricing.registry j ≡ some v
      → (elem (ports.resolve j) end.1.tasks ≡ true) ⊎ IsLeft ports cs end.0 (ports.resolve j)

module _ {env : Env} {ports : Ports} where
  served_by :
      {cs : List OwnershipChange} {o : Outcome Unit} {r : Runtime}
      → IsServing env ports r
      → IsServedBy env ports cs (o, r)
  served_by h = record { persisted = h.persisted; served = λ j v e. inl (h.served j v e) }

  while_it_runs :
      {cs : List OwnershipChange} {end : Outcome Unit × Runtime}
      → IsServedBy env ports cs end
      → end.0 ≡ ok tt
      → IsServing env ports end.1
  while_it_runs h fine = record {
    persisted = h.persisted;
    served = λ j v e. elim (h.served j v e) [
      | inl on ↦ on
      | inr (x, bad, t, m, awaited) ↦ absurd (cc (fine, bad))
    ];
  }

  weaken_first :
      {c : OwnershipChange} {cs : List OwnershipChange} {end : Outcome Unit × Runtime} {x : PyError}
      → IsServedBy env ports (c ∷ []) end
      → end.0 ≡ raise x
      → IsServedBy env ports (c ∷ cs) (raise x, end.1)
  weaken_first h same = record {
    persisted = h.persisted;
    served = λ j v e. elim (h.served j v e) [
      | inl on ↦ inl on
      | inr (y, bad, t, m, awaited) ↦ inr (y, sym same ∙ bad, t, mem_weaken m, awaited)
    ];
  }

  weaken_rest :
      {c : OwnershipChange} {cs : List OwnershipChange} {end : Outcome Unit × Runtime}
      → IsServedBy env ports cs end
      → IsServedBy env ports (c ∷ cs) end
  weaken_rest h = record {
    persisted = h.persisted;
    served = λ j v e. elim (h.served j v e) [
      | inl on ↦ inl on
      | inr (y, bad, t, m, awaited) ↦ inr (y, bad, t, Memᴰ.tail m, awaited)
    ];
  }

module _ (env : Env) (ports : Ports) where
  acquired_fresh :
      (shard : PricingShardId) (r : Runtime) (h : IsServing env ports r) (ss : List PricingSession)
      → elem shard r.tasks ≡ false
      → list_active env.texts r.pricing.table ≡ ok ss
      → IsServing env ports (acquire env ports shard r).1
  unfolding acquire
  acquired_fresh shard r h ss fresh hs =
      let p = h.persisted in
      let restored = restore_shard_ok env ports.resolve shard r.pricing ss hs in
      rw (fresh, restored)
        (record {
          persisted = restore_shard-IsPersisted env ports.resolve shard r.pricing p;
          served = λ j v e.
              let q =
                sym (
                  get-restore_shard env ports.resolve shard r.pricing j ss p.one_row p.keyed_rows
                    hs)
                ∙ e in
              ground (arith, q, h.served j v, elem-append (ports.resolve j) r.tasks (shard ∷ []));
        })

  acquired-IsServing :
      (shard : PricingShardId) (r : Runtime)
      → IsServing env ports r
      → IsServing env ports (acquire env ports shard r).1
  unfolding acquire
  acquired-IsServing shard r h = elim (Bool-cases (elem shard r.tasks)) [
    | inl again ↦ rw again h
    | inr fresh ↦ elim (Outcome-cases (list_active env.texts r.pricing.table)) [
      | inr (x, hx) ↦
          let failed = restore_shard_fails env ports.resolve shard r.pricing x hx in
          rw (fresh, failed)
            (record {
              persisted = restore_shard-IsPersisted env ports.resolve shard r.pricing h.persisted;
              served = λ j v e.
                  h.served j v
                    (sym (ap (λ (o : Outcome Unit × Pricing). Dict.get o.1.registry j) failed) ∙ e);
            })
      | inl (ss, hs) ↦ acquired_fresh shard r h ss fresh hs
    ]
  ]

  -- With an entry of its shard removed, the other sessions are still served.
  pop-IsServing :
      (c : OwnershipChange) (shard : PricingShardId) (r : Runtime)
      → IsServing env ports r
      → (stop_task env ports c shard r).0 ≡ ok tt
      → IsServing env ports (release env ports c shard r).1
  unfolding release stop_task
  pop-IsServing c shard r h awaited = elim (Bool-cases (elem shard r.tasks)) [
    | inl runs ↦
        let fine : ports.await_task c ≡ ok tt = rw (stop_task, runs) at awaited in
        rw (release, stop_task, runs, fine)
          (record {
            persisted =
                release_shard-IsPersisted env.texts ports.resolve shard r.pricing h.persisted;
            served = λ j v e.
                let q =
                  sym (get-release_shard ports.resolve shard r.pricing j h.persisted.keyed) ∙ e in
                ground (
                  arith,
                  q,
                  h.served j v,
                  ==_iff shard (ports.resolve j),
                  elem-filter (λ x. not (elem x (shard ∷ []))) (ports.resolve j) r.tasks,
                );
          })
    | inr free ↦
        rw (release, stop_task, free)
          (record {
            persisted =
                release_shard-IsPersisted env.texts ports.resolve shard r.pricing h.persisted;
            served = λ j v e.
                let q =
                  sym (get-release_shard ports.resolve shard r.pricing j h.persisted.keyed) ∙ e in
                ground (arith, q, h.served j v);
          })
  ]

  stop_task_fails :
      (t : String) (shard : PricingShardId) (r : Runtime) (x : PyError)
      → IsServing env ports r
      → (stop_task env ports (released t shard) shard r).0 ≡ raise x
      → IsServedBy env ports (released t shard ∷ []) (release env ports (released t shard) shard r)
  unfolding release stop_task
  stop_task_fails t shard r x h failed = elim (Bool-cases (elem shard r.tasks)) [
    | inr free ↦ absurd (cc (rw (stop_task, free) at failed))
    | inl runs ↦
        let bad : ports.await_task (released t shard) ≡ raise x = rw (stop_task, runs) at failed in
        rw (release, stop_task, runs, bad)
          (record {
            persisted = h.persisted;
            served = λ j v e. elim (Bool-cases (shard == ports.resolve j)) [
              | inl same ↦
                  let q = (==_iff shard (ports.resolve j)).0 same in
                  inr (
                    x,
                    refl,
                    t,
                    Memᴰ.head (ap (released t) (sym q)),
                    subst (λ k. ports.await_task (released t k) ≡ raise x) q bad,
                  )
              | inr other ↦ inl (
                  ground (
                    arith,
                    other,
                    h.served j v e,
                    ==_iff shard (ports.resolve j),
                    elem-filter (λ y. not (elem y (shard ∷ []))) (ports.resolve j) r.tasks,
                  ))
            ];
          })
  ]

  -- One change of ownership.
  on_change-IsServedBy :
      (c : OwnershipChange) (r : Runtime)
      → IsServing env ports r
      → IsServedBy env ports (c ∷ []) (on_change env ports c r)
  unfolding on_change finish release
  on_change-IsServedBy (acquired t shard) r h = elim (Outcome-cases (acquire env ports shard r).0) [
    | inr (x, hx) ↦ rw hx (served_by (acquired-IsServing shard r h))
    | inl (u, hu) ↦ rw hu (served_by (acquired-IsServing shard r h))
  ]
  on_change-IsServedBy (released t shard) r h =
      elim (Outcome-cases (stop_task env ports (released t shard) shard r).0) [
        | inr (x, hx) ↦ rw hx (rw (release, hx) at (stop_task_fails t shard r x h hx))
        | inl (u, hu) ↦
            rw hu (served_by (rw (release, hu) at (pop-IsServing (released t shard) shard r h hu)))
      ]

  -- From a worker where registered sessions are stored and each one's shard has a consumer task: after
  -- any changes of ownership registered sessions are stored, and each one's shard has an entry in
  -- `shard_tasks`, unless the loop has raised the exception with which the task of that shard had ended
  -- when the shard was released.
  pub run_owned_pricing_shards-IsServedBy :
      (cs : List OwnershipChange) (r : Runtime)
      → IsServing env ports r
      → IsServedBy env ports cs (run_owned_pricing_shards env ports cs r)
  unfolding run_owned_pricing_shards
  run_owned_pricing_shards-IsServedBy [] r h = served_by h
  run_owned_pricing_shards-IsServedBy (c ∷ cs) r h =
      let first = on_change-IsServedBy c r h in
      elim (Outcome-cases (on_change env ports c r).0) [
        | inr (x, hx) ↦ rw hx (weaken_first first hx)
        | inl (u, hu) ↦ rw hu (
            weaken_rest (
              run_owned_pricing_shards-IsServedBy cs (on_change env ports c r).1
                (while_it_runs first hu)))
      ]

  -- A shard that is acquired while its task runs ends the worker: the loop raises before it restores
  -- or completes anything, and no later change is looked at.
  pub run_owned_pricing_shards_twice :
      (t : String) (shard : PricingShardId) (cs : List OwnershipChange) (r : Runtime)
      → elem shard r.tasks ≡ true
      → run_owned_pricing_shards env ports (acquired t shard ∷ cs) r ≡ (raise runtime_error, r)
  unfolding run_owned_pricing_shards on_change acquire
  run_owned_pricing_shards_twice t shard cs r again = rw again
