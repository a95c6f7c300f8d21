-- ===== src/Routing/Shards.antt =====
-- The number that the resolver gives.
use price_streaming.Prelude.{List, String, String_eq, arith, negsuc, pos, ℕ, ℕ_eq, ℤ, ◌<◌}
use native.Mathlib.Nat.{mod-lt}
use price_streaming.Routing.{python_mod, resolve_shard}

python_mod_bound : (z : ℤ) (n : ℕ) → 0 < n → python_mod z n < n
unfolding python_mod
python_mod_bound (pos a) n h = mod-lt a h
python_mod_bound (negsuc a) n h = omega arith

module _ (sha256 : String → List ℕ) where
  -- A request id always resolves to one of the shards.
  pub resolve_shard_bound :
      (shard_count : ℕ) (request_id : String)
      → 0 < shard_count
      → resolve_shard sha256 shard_count request_id < shard_count
  unfolding resolve_shard
  resolve_shard_bound shard_count request_id h = python_mod_bound _ shard_count h
