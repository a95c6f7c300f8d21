-- ===== src/Ownership/Rebalance/Waiting.antt =====
-- The rebalance callbacks against the worker's `complete`: when a callback may return.
use price_streaming.Prelude.{
  ==_iff, All, List, Option-cases, String_eq, [], arith, elem, if◌then◌else◌, inl, inr, none, raise,
  refl, runtime_error, some, true, ◌∷◌, ◌≡◌,
}
use price_streaming.Dict
use price_streaming.Dict.{Dict, get-put, get-remove}
use price_streaming.Ownership.{TransitionId, OwnershipChange, transition_id}
use price_streaming.Ownership.Rebalance.{
  FutureState, waiting, done, cancelled, RebalanceOwnership, returns, complete, gather, forget,
}

-- The transitions of some changes.
abbrev pub ids : List OwnershipChange → List TransitionId
ids [] = []
ids (c ∷ cs) = transition_id c ∷ ids cs

get-forget :
    (cs : List OwnershipChange) (o : RebalanceOwnership) (t : TransitionId)
    → Dict.get (forget cs o).completions t
      ≡ (if elem t (ids cs) then none else Dict.get o.completions t)
unfolding forget
get-forget [] o t = refl
get-forget (c ∷ cs) o t = ground (
  arith,
  get-forget cs (record o { completions = Dict.remove o.completions (transition_id c) }) t,
  get-remove o.completions (transition_id c) t,
  ==_iff (transition_id c) t,
)

-- When a callback has ended, completing one of its changes raises a RuntimeError and changes
-- nothing.
pub complete-forget :
    (cs : List OwnershipChange) (c : OwnershipChange) (o : RebalanceOwnership)
    → elem (transition_id c) (ids cs) ≡ true
    → complete c (forget cs o) ≡ (raise runtime_error, forget cs o)
unfolding complete
complete-forget cs c o m = ground (arith, get-forget cs o (transition_id c), m)

gather-absent :
    (c : OwnershipChange) (cs : List OwnershipChange) (o : RebalanceOwnership)
    → Dict.get o.futures (transition_id c) ≡ none
    → ¬ (gather (c ∷ cs) o ≡ returns)
unfolding gather
gather-absent c cs o absent h = ground (arith, absent, h)

gather-cons :
    (c : OwnershipChange) (cs : List OwnershipChange) (o : RebalanceOwnership) (f : FutureState)
    → Dict.get o.futures (transition_id c) ≡ some f
    → gather (c ∷ cs) o ≡ returns
    → (Dict.get o.futures (transition_id c) ≡ some done) × (gather cs o ≡ returns)
unfolding gather
gather-cons c cs o waiting found h = absurd (ground (arith, found, h))
gather-cons c cs o done found h = (found, ground (arith, found, h))
gather-cons c cs o cancelled found h = absurd (ground (arith, found, h))

-- If the futures of a callback's changes are gathered, so that the callback returns, then the
-- worker has completed every change that the callback published.
pub gather-returns :
    (cs : List OwnershipChange) (o : RebalanceOwnership)
    → gather cs o ≡ returns
    → All (λ c. Dict.get o.futures (transition_id c) ≡ some done) cs
gather-returns [] o h = tt
gather-returns (c ∷ cs) o h = elim (Option-cases (Dict.get o.futures (transition_id c))) [
  | inl absent ↦ absurd (gather-absent c cs o absent h)
  | inr (f, found) ↦ let both = gather-cons c cs o f found h in (both.0, gather-returns cs o both.1)
]
