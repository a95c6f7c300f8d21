-- ===== src/Ownership/Rebalance/Liveness.antt =====
-- A rebalance callback whose changes the worker completes one after the other.
use price_streaming.Prelude.{
  ==_iff, All, Bool-cases, List, Option-cases, String_eq, [], arith, inl, inr, refl, some, ◌++◌,
  ◌==◌, ◌∷◌, ◌≡◌, ◌⊎◌,
}
use price_streaming.Dict
use price_streaming.Dict.{get-put}
use price_streaming.Ownership.{TransitionId, OwnershipChange, transition_id}
use price_streaming.Ownership.Rebalance.{
  waiting, done, RebalanceOwnership, returns, is_done, complete, publish, gather,
}

-- The worker completes the changes in their order.
pub complete_all : List OwnershipChange → RebalanceOwnership → RebalanceOwnership
complete_all [] o = o
complete_all (c ∷ cs) o = complete_all cs (complete c o).1

abbrev IsDone : RebalanceOwnership → TransitionId → Type 0
IsDone o t = Dict.get o.futures t ≡ some done

-- A transition that can be completed, or has been.
abbrev IsOpen : RebalanceOwnership → TransitionId → Type 0
IsOpen o t =
    (Dict.get o.completions t ≡ some tt) × ((Dict.get o.futures t ≡ some waiting) ⊎ IsDone o t)

complete-IsDone :
    (c : OwnershipChange) (o : RebalanceOwnership) (t : TransitionId)
    → IsDone o t
    → IsDone (complete c o).1 t
unfolding complete is_done
complete-IsDone c o t h = ground (arith, h, get-put o.futures (transition_id c) t done)

completed-IsDone :
    (c : OwnershipChange) (o : RebalanceOwnership)
    → IsOpen o (transition_id c)
    → IsDone (complete c o).1 (transition_id c)
unfolding complete is_done
completed-IsDone c o (known, inl w) = ground (
  arith,
  known,
  w,
  get-put o.futures (transition_id c) (transition_id c) done,
  ==_iff (transition_id c) (transition_id c),
)
completed-IsDone c o (known, inr d) = ground (arith, known, d)

completions-complete :
    (c : OwnershipChange) (o : RebalanceOwnership) → (complete c o).1.completions ≡ o.completions
unfolding complete
completions-complete c o = ground arith

waiting-complete :
    (c : OwnershipChange) (o : RebalanceOwnership) (t : TransitionId)
    → Dict.get o.futures t ≡ some waiting
    → (Dict.get (complete c o).1.futures t ≡ some waiting) ⊎ IsDone (complete c o).1 t
unfolding complete is_done
waiting-complete c o t w = elim (Option-cases (Dict.get o.completions (transition_id c))) [
  | inl unknown ↦ inl (ground (arith, unknown, w))
  | inr (u, known) ↦ elim (Bool-cases (transition_id c == t)) [
    | inl same ↦
        let e = (==_iff (transition_id c) t).0 same in
        inr (rw (← e) (completed-IsDone c o (known, inl (rw e w))))
    | inr other ↦ inl (ground (arith, known, w, other, get-put o.futures (transition_id c) t done))
  ]
]

complete-IsOpen :
    (c : OwnershipChange) (o : RebalanceOwnership) (t : TransitionId)
    → IsOpen o t
    → IsOpen (complete c o).1 t
complete-IsOpen c o t (known, inl w) =
    (rw (completions-complete c o) known, waiting-complete c o t w)
complete-IsOpen c o t (known, inr d) =
    (rw (completions-complete c o) known, inr (complete-IsDone c o t d))

complete_all-IsDone :
    (cs : List OwnershipChange) (o : RebalanceOwnership) (t : TransitionId)
    → IsDone o t
    → IsDone (complete_all cs o) t
unfolding complete_all
complete_all-IsDone [] o t h = h
complete_all-IsDone (c ∷ cs) o t h =
    complete_all-IsDone cs (complete c o).1 t (complete-IsDone c o t h)

All-complete-IsOpen :
    (c : OwnershipChange) (o : RebalanceOwnership) (cs : List OwnershipChange)
    → All (λ c'. IsOpen o (transition_id c')) cs
    → All (λ c'. IsOpen (complete c o).1 (transition_id c')) cs
All-complete-IsOpen c o [] h = tt
All-complete-IsOpen c o (c' ∷ cs) h =
    (complete-IsOpen c o (transition_id c') h.0, All-complete-IsOpen c o cs h.1)

All-complete_all :
    (cs : List OwnershipChange) (o : RebalanceOwnership)
    → All (λ c. IsOpen o (transition_id c)) cs
    → All (λ c. IsDone (complete_all cs o) (transition_id c)) cs
unfolding complete_all
All-complete_all [] o h = tt
All-complete_all (c ∷ cs) o h = (
  complete_all-IsDone cs (complete c o).1 (transition_id c) (completed-IsDone c o h.0),
  All-complete_all cs (complete c o).1 (All-complete-IsOpen c o cs h.1),
)

gather-done :
    (cs : List OwnershipChange) (o : RebalanceOwnership)
    → All (λ c. IsDone o (transition_id c)) cs
    → gather cs o ≡ returns
unfolding gather
gather-done [] o h = refl
gather-done (c ∷ cs) o h = ground (arith, h.0, gather-done cs o h.1)

-- `publish` of one change.
abbrev published : OwnershipChange → RebalanceOwnership → RebalanceOwnership
published c o = record o {
  completions = Dict.put o.completions (transition_id c) tt;
  futures = Dict.put o.futures (transition_id c) waiting;
  changes = o.changes ++ c ∷ [];
}

published-IsOpen :
    (c : OwnershipChange) (o : RebalanceOwnership) (t : TransitionId)
    → (transition_id c ≡ t) ⊎ IsOpen o t
    → IsOpen (published c o) t
published-IsOpen c o t h = elim (Bool-cases (transition_id c == t)) [
  | inl same ↦ (
    ground (arith, same, get-put o.completions (transition_id c) t tt),
    inl (ground (arith, same, get-put o.futures (transition_id c) t waiting)),
  )
  | inr other ↦ elim h [
    | inl e ↦ absurd (ground (arith, other, e, ==_iff (transition_id c) t))
    | inr (known, f) ↦ (
      ground (arith, known, other, get-put o.completions (transition_id c) t tt),
      rw (get-put, other) f,
    )
  ]
]

publish-IsOpen :
    (cs : List OwnershipChange) (o : RebalanceOwnership) (t : TransitionId)
    → IsOpen o t
    → IsOpen (publish cs o) t
unfolding publish
publish-IsOpen [] o t h = h
publish-IsOpen (c ∷ cs) o t h = publish-IsOpen cs (published c o) t (published-IsOpen c o t (inr h))

All-publish :
    (cs : List OwnershipChange) (o : RebalanceOwnership)
    → All (λ c. IsOpen (publish cs o) (transition_id c)) cs
unfolding publish
All-publish [] o = tt
All-publish (c ∷ cs) o = (
  publish-IsOpen cs (published c o) (transition_id c)
      (published-IsOpen c o (transition_id c) (inl refl)),
  All-publish cs (published c o),
)

-- The callback of a rebalance returns once the worker has completed the changes that the callback
-- published, one after the other, whatever changes stood before.
pub gather-complete_all :
    (cs : List OwnershipChange) (o : RebalanceOwnership)
    → gather cs (complete_all cs (publish cs o)) ≡ returns
gather-complete_all cs o =
    gather-done cs (complete_all cs (publish cs o))
      (All-complete_all cs (publish cs o) (All-publish cs o))
