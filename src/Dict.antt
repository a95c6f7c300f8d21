-- ===== src/Dict.antt =====
-- Python's `dict`: an association list in the order of insertion. An assignment to a key that is
-- there keeps its place.
use price_streaming.Prelude.{
  ==_iff, All, Bool, Bool-cases, Eq, List, Option, [], any, arith, if◌then◌else◌, inl, inr, none,
  refl, some, true, ◌==◌, ◌∷◌, ◌≡◌,
}

abbrev pub Dict : Type 0 → Type 0 → Type 0
Dict K V = List (K × V)

abbrev pub values : {K V : Type 0} → Dict K V → List V
values [] = []
values ((j, v) ∷ d) = v ∷ values d

abbrev pub keys : {K V : Type 0} → Dict K V → List K
keys [] = []
keys ((j, v) ∷ d) = j ∷ keys d

module _ {K V : Type 0} ⦃e : Eq K⦄ where
  -- `d.get(k)`
  unfoldable pub get : Dict K V → K → Option V
  get [] k = none
  get ((j, v) ∷ d) k = if j == k then some v else get d k

  -- `d[k] = v`
  unfoldable pub put : Dict K V → K → V → Dict K V
  put [] k v = (k, v) ∷ []
  put ((j, w) ∷ d) k v = if j == k then (k, v) ∷ d else (j, w) ∷ put d k v

  -- `d.pop(k, None)`
  unfoldable pub remove : Dict K V → K → Dict K V
  remove [] k = []
  remove ((j, v) ∷ d) k = let rest = remove d k in if j == k then rest else (j, v) ∷ rest

  pub get-put :
      (d : Dict K V) (k j : K) (v : V) → get (put d k v) j ≡ (if k == j then some v else get d j)
  unfolding get put
  get-put [] k j v = refl
  get-put ((i, w) ∷ d) k j v = ground (arith, get-put d k j v, ==_iff i k, ==_iff i j, ==_iff k j)

  pub get-remove :
      (d : Dict K V) (k j : K) → get (remove d k) j ≡ (if k == j then none else get d j)
  unfolding get remove
  get-remove [] k j = ground arith
  get-remove ((i, w) ∷ d) k j = ground (arith, get-remove d k j, ==_iff i k, ==_iff i j, ==_iff k j)

  pub get-empty : (k : K) → get [] k ≡ none
  unfolding get
  get-empty k = refl

  -- Every value that a lookup returns stands among the values, and satisfies what all of them do.
  pub any-of_get :
      (p : V → Bool) (d : Dict K V) (k : K) {v : V}
      → get d k ≡ some v
      → p v ≡ true
      → any p (values d) ≡ true
  unfolding get
  any-of_get p [] k h hp = absurd (ground arith)
  any-of_get p ((j, w) ∷ d) k {v} h hp = ground (arith, any-of_get p d k {v = v})

  pub All-of_get :
      (P : K → V → Type 0) (d : Dict K V) (k : K) {v : V}
      → All (λ kv. P kv.0 kv.1) d
      → get d k ≡ some v
      → P k v
  unfolding get
  All-of_get P [] k a h = absurd (ground arith)
  All-of_get P ((j, w) ∷ d) k {v} a h =
      ground (arith, a.0, All-of_get P d k {v = v} a.1, ==_iff j k)

  pub All-put :
      (P : K → V → Type 0) (d : Dict K V) (k : K) (v : V)
      → All (λ kv. P kv.0 kv.1) d
      → P k v
      → All (λ kv. P kv.0 kv.1) (put d k v)
  unfolding put
  All-put P [] k v a h = (h, tt)
  All-put P ((j, w) ∷ d) k v a h = ground (arith, a.0, a.1, h, All-put P d k v a.1 h)

  pub All-remove :
      (P : K → V → Type 0) (d : Dict K V) (k : K)
      → All (λ kv. P kv.0 kv.1) d
      → All (λ kv. P kv.0 kv.1) (remove d k)
  unfolding remove
  All-remove P [] k a = tt
  All-remove P ((j, w) ∷ d) k a = ground (arith, a.0, All-remove P d k a.1)

  -- No key stands twice, as in every dict that assignments have built.
  abbrev pub IsFunctional : Dict K V → Type 0
  IsFunctional [] = Unit
  IsFunctional ((j, v) ∷ d) = (get d j ≡ none) × IsFunctional d

  pub put-IsFunctional : (d : Dict K V) (k : K) (v : V) → IsFunctional d → IsFunctional (put d k v)
  unfolding put
  put-IsFunctional [] k v h = (get-empty k, tt)
  put-IsFunctional ((j, w) ∷ d) k v h = elim (Bool-cases (j == k)) [
    | inl same ↦ rw same (rw (← (==_iff j k).0 same) h.0, h.1)
    | inr other ↦
        rw other
          (ground (arith, get-put d k j v, h.0, ==_iff j k, ==_iff k j), put-IsFunctional d k v h.1)
  ]

module _ {K V : Type 0} ⦃e : Eq K⦄ where
  All-entries_of :
      (d d' : Dict K V)
      → IsFunctional d
      → ((j : K) (v : V) → get d j ≡ some v → get d' j ≡ some v)
      → All (λ kv. get d' kv.0 ≡ some kv.1) d
  unfolding get
  All-entries_of [] d' f h = tt
  All-entries_of ((j, v) ∷ d) d' f h = (
    h j v (ground (arith, ==_iff j j)),
    All-entries_of d d' f.1 (λ i w q. h i w (ground (arith, q, f.0, ==_iff j i))),
  )

  -- Each entry of a dict is what a lookup of its key returns.
  pub All-entries : (d : Dict K V) → IsFunctional d → All (λ kv. get d kv.0 ≡ some kv.1) d
  All-entries d f = All-entries_of d d f (λ j v q. q)

pub ruleset dict_laws = (get-put, get-remove, get-empty)
