-- ===== src/Pricing/Release.antt =====
-- What releasing a shard leaves in the registry.
use price_streaming.Prelude.{
  ==_iff, Bool-cases, List, Option-cases, String, String_eq, [], any, arith, if◌then◌else◌, inl,
  inr, nat_eq, none, refl, some, ℕ, ◌&&◌, ◌==◌, ◌∷◌, ◌≡◌,
}
use price_streaming.Dict
use price_streaming.Dict.{values, get-remove, any-of_get}
use price_streaming.Session.{PricingSession}
use price_streaming.Pricing.{
  Registry, Pricing, unregister, release_sessions, release_shard, list_all,
}

-- Each session stands under its own request id.
abbrev pub IsKeyed : Registry → Type 0
IsKeyed reg = (j : String) (v : PricingSession) → Dict.get reg j ≡ some v → v.request.request_id ≡ j

module _ (resolve : String → ℕ) (shard : ℕ) where
  get-release_sessions :
      (ss : List PricingSession) (reg : Registry) (j : String)
      → Dict.get (release_sessions resolve shard ss reg) j ≡ (
          if any (λ s. s.request.request_id == j) ss && nat_eq (resolve j) shard
          then none
          else Dict.get reg j)
  unfolding release_sessions unregister
  get-release_sessions [] reg j = refl
  get-release_sessions (s ∷ ss) reg j =
      let id = s.request.request_id in
      elim (Bool-cases (nat_eq (resolve id) shard)) [
        | inl here ↦ rw here (
            ground (
              arith,
              get-release_sessions ss (Dict.remove reg id) j,
              get-remove reg id j,
              ==_iff id j,
            ))
        | inr other ↦ rw other (ground (arith, get-release_sessions ss reg j, ==_iff id j))
      ]

  -- Releasing a shard removes from a registry whose sessions stand under their own ids the
  -- sessions of that shard, all of them, and leaves every other session as it was.
  pub get-release_shard :
      (s : Pricing) (j : String)
      → IsKeyed s.registry
      → Dict.get (release_shard resolve shard s).registry j
        ≡ (if nat_eq (resolve j) shard then none else Dict.get s.registry j)
  unfolding release_shard list_all
  get-release_shard s j keyed = elim (Option-cases (Dict.get s.registry j)) [
    | inl absent ↦ rw (get-release_sessions, absent) (ground arith)
    | inr (session, found) ↦
        rw (get-release_sessions, found)
          (ground (
            arith,
            any-of_get (λ s'. s'.request.request_id == j) s.registry j found,
            keyed j session found,
            ==_iff session.request.request_id j,
          ))
  ]
