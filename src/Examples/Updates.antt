-- ===== src/Examples/Updates.antt =====
-- A client that asks for one RFQ and then for two others.
use price_streaming.Prelude.{
  Outcome, String, String_eq, [], bind, if◌then◌else◌, map, nat_eq, ok, raise, refl, value_error,
  ℕ_eq, ℤ_eq, ◌∷◌, ◌≡◌,
}
use Prim.Native.Char.{code}
use Prim.Native.String.{[] as empty, ◌∷◌ as ◌∷ₛ◌}
use price_streaming.Examples.Codec.{digit, marks_texts, point}
use price_streaming.Examples.Pricing.{par}
use price_streaming.Updates.{
  Json, PricePayload, make_subscriber, publish_update, receive_commands, updates,
}
use price_streaming.Updates.Subscribed.{both, publish_update-receive_commands}

-- Two texts in one: each character of the first behind a mark, a point and the second.
abbrev pub join : String → String → String
join empty b = point ∷ₛ b
join (c ∷ₛ a) b = digit ∷ₛ (c ∷ₛ join a b)

abbrev payload_of : String → String → PricePayload
payload_of a b = record { request_id = a; par_rate = b }

abbrev pub split : String → Outcome PricePayload
split empty = raise value_error
split (m ∷ₛ empty) = ok (payload_of empty empty)
split (m ∷ₛ (c ∷ₛ s)) =
    let rest = split s in
    if nat_eq (code m) 46
    then ok (payload_of empty (c ∷ₛ s))
    else bind rest (λ p. ok (payload_of (c ∷ₛ p.request_id) p.par_rate))

pub split-join : (a b : String) → split (join a b) ≡ ok (payload_of a b)
split-join empty empty = refl
split-join empty (c ∷ₛ b) = refl
split-join (c ∷ₛ a) b = rw (split-join a b) refl

abbrev json : Json
json = record {
  dumps = λ p. join p.request_id p.par_rate;
  loads = split;
  loads-dumps = λ p. split-join p.request_id p.par_rate;
}

publish_update-receive_commands_example :
    updates marks_texts json
      (publish_update marks_texts json "pricing" "r2" par
        (receive_commands
          (map (λ c. (both, c)) (("r1" ∷ []) ∷ ("r2" ∷ "r3" ∷ []) ∷ []))
          make_subscriber).1).received
    ≡ (record { request_id = "r2"; par_rate = par } ∷ [], ok tt)
publish_update-receive_commands_example =
    publish_update-receive_commands marks_texts json (("r1" ∷ []) ∷ []) ("r2" ∷ "r3" ∷ []) "r2" par
