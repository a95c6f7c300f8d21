-- ===== src/Examples/Rfq.antt =====
-- Creating one RFQ.
use price_streaming.Prelude.{
  List, String, String_eq, [], arith, bind, false, length, if◌then◌else◌, nat_eq, none, ok, refl,
  some, true, ℕ, ℕ_eq, ◌+◌, ◌∷◌, ◌≡◌,
}
use price_streaming.Dict
use price_streaming.Examples.Codec.{marks_texts}
use price_streaming.Examples.Pricing.{par}
use price_streaming.Product.{Notional, pay, jpy, pay_receive_str}
use price_streaming.Outbox.{OutboxRow}
use price_streaming.Rfq.{
  RfqTables, Service, create_rfq, get_rfq, pull_domain_events, to_outbox_event,
}
use mathlib.Core.List.{Memᴰ, Permᴰ}
use mathlib.Core.List.Permᴰ
use price_streaming.Outbox.{OutboxEvent, execute}
use price_streaming.Outbox.Publishers.{
  Relay, RelayReach, RelayStep, begun, claim_events, claimed, empty_relay, ended, here, idle, next,
  set_phase, started,
}
use price_streaming.Outbox.Publishers.Run.{broker_at}
use price_streaming.Rfq.Sent.{delivers_post_route}
use price_streaming.Rfq.Routes.{CreateSwapRfqRequest, RfqDto, get_route, list_route, post_route}
use price_streaming.Rfq.Routes.Listed.{requested, get_route-post_route}
use price_streaming.Pricing.{RfqRegisteredEvent}
use price_streaming.Delivery.{IntegrationEventEnvelope, Wire}
use price_streaming.Delivery.Kafka
use price_streaming.Delivery.Quorum
use price_streaming.Notification.Subscriber.{deserialize_registered}
use price_streaming.Examples.Routing.{rfq, sha256}
use price_streaming.Routing.{
  declare_quorum, envelope, publish_kafka, publish_rabbitmq, resolve_shard,
}
use price_streaming.Routing.Received.{ReadsBack, registered_event, deserialize-post_route}
use price_streaming.Rfq.Create.{create_rfq_lem, created}

abbrev service : Service
service = record {
  texts = marks_texts;
  model_dump = λ e. "{}";
  uuid = λ n. if nat_eq n 0 then "r1" else "e1";
  now = 9;
  commit_ok = true;
  row_order = λ rs. rs;
}

abbrev no_rfqs : RfqTables
no_rfqs = record { rfqs = []; outbox = [] }

no_event : Dict.get no_rfqs.outbox (service.uuid 1) ≡ none
unfolding Dict.get
no_event = refl

create_rfq_lem_example :
    ((create_rfq service par 1 2 (pay_receive_str pay) jpy "t1" "u1" 5 no_rfqs).0
      ≡ ok (service.uuid 0))
    × (get_rfq service
          (service.uuid 0)
          (create_rfq service par 1 2 (pay_receive_str pay) jpy "t1" "u1" 5 no_rfqs).1
        ≡ ok (some (pull_domain_events (created service par 1 2 pay jpy "t1" "u1" 5)).1))
    × ((row : OutboxRow) × (Dict.get
            (create_rfq service par 1 2 (pay_receive_str pay) jpy "t1" "u1" 5 no_rfqs).1.outbox
            (service.uuid 1)
          ≡ some row)
        × (row.event.aggregate_id ≡ service.uuid 0)
        × (row.claimed_until ≡ none)
        × (row.published_at ≡ none))
create_rfq_lem_example = create_rfq_lem service par 1 2 pay jpy "t1" "u1" 5 no_rfqs refl no_event

abbrev request : CreateSwapRfqRequest
request = record {
  notional = par;
  effective_date = 1;
  maturity_date = 2;
  fixed_leg = pay;
  swap_currency = jpy;
  assigned_trader = "t1";
  registered_by = "u1";
}

no_rfq : Dict.get no_rfqs.rfqs (service.uuid 0) ≡ none
unfolding Dict.get
no_rfq = refl

get_route-post_route_example :
    ((post_route service 5 request no_rfqs).0 ≡ ok (record { rfq_id = "r1"; revision = 1 }))
    × (get_route service "r1" (post_route service 5 request no_rfqs).1
        ≡ ok (requested "r1" request))
    × ((ds : List RfqDto)
        → list_route service no_rfqs ≡ ok ds
        → (ds' : List RfqDto) × (list_route service (post_route service 5 request no_rfqs).1
            ≡ ok ds')
          × Permᴰ (requested "r1" request ∷ ds) ds')
get_route-post_route_example =
    get_route-post_route service 5 request no_rfqs refl no_event no_rfq
      (record { all_rows = λ rs. Permᴰ.refl rs })

abbrev sent_envelope : IntegrationEventEnvelope
sent_envelope = record {
  message_id = "e1";
  message_type = "rfq.registered";
  schema_version = 1;
  payload = "{}";
  occurred_at = 5;
}

abbrev seen : RfqRegisteredEvent
seen = record {
  event_id = "e1";
  rfq_id = "r1";
  revision = 1;
  product = record {
    notional = Notional.decimal par;
    effective_date = 1;
    maturity_date = 2;
    fixed_leg = pay;
    swap_currency = jpy;
  };
  assigned_trader = "t1";
  registered_by = "u1";
  occurred_at = 5;
}

-- The text of the payload stands for the one event, and that of the envelope is its payload.
abbrev one_wire : Wire
one_wire = record {
  read_envelope = λ body. ok (record sent_envelope { payload = body });
  read_event = λ i payload. ok (record seen { event_id = i });
  uuid = λ n. "d";
}

abbrev payload_text : IntegrationEventEnvelope → String
payload_text e = e.payload

reads_back : ReadsBack service one_wire payload_text (registered_event service 5 request)
unfolding envelope to_outbox_event registered_event
reads_back = record { reads_envelope = refl; reads_event = refl }

deserialize-post_route_example :
    (row : OutboxRow) × (Dict.get (post_route service 5 request no_rfqs).1.outbox "e1" ≡ some row)
    × ((value : String) × (publish_kafka payload_text true row.event []
          ≡ (ok tt, record { topic = "rfq-domain-events"; key = "r1"; value = value } ∷ []))
        × ((queue : List ℕ) × (Dict.get (declare_quorum rfq 0 2).1 (resolve_shard sha256 2 "r1")
              ≡ some queue)
            × (publish_rabbitmq payload_text sha256 2 (declare_quorum rfq 0 2).0 row.event []
                ≡ (ok tt, (queue, value) ∷ [])))
        × (bind (one_wire.read_envelope value) (Kafka.deserialize one_wire)
            ≡ ok (registered_event service 5 request))
        × (bind (one_wire.read_envelope value) (Quorum.deserialize one_wire)
            ≡ ok (registered_event service 5 request))
        × (bind (one_wire.read_envelope value) (deserialize_registered one_wire)
            ≡ ok (registered_event service 5 request)))
deserialize-post_route_example =
    deserialize-post_route service one_wire payload_text sha256 rfq 2 5 request no_rfqs reads_back
      refl no_event (omega arith)

-- The state behind the commit, and then one where a publisher has claimed the row and died.
abbrev posted : Relay
posted = record (empty_relay 3) { table = (post_route service 5 request no_rfqs).1.outbox }

abbrev claiming : Relay
claiming =
    claim_events 0 (λ j. false) "c0" 3 100
      (record posted { phase = set_phase 0 (started "c0" posted.clock) posted.phase })

abbrev abandoned : Relay
abandoned = record claiming { phase = set_phase 0 idle claiming.phase }

abandoned-reach : RelayReach posted abandoned
unfolding empty_relay set_phase
abandoned-reach =
    next (next (next here (begun 0 "c0" refl)) (claimed 0 (λ j. false) "c0" 3 100 refl)) (ended 0)

delivers_post_route_example :
    RelayStep (empty_relay 3) posted
    × ((end : Relay) × RelayReach abandoned end
        × (end.clock ≡ abandoned.clock + 30000000)
        × (end.table
            ≡ (execute
                (broker_at (abandoned.clock + 30000000) (λ e. true))
                (abandoned.clock + 30000000)
                (λ j. false)
                "c1"
                (length abandoned.table)
                abandoned.table).1)
        × ((e : OutboxEvent) × Memᴰ e end.sent
            × (bind
                  (one_wire.read_envelope (payload_text (envelope e)))
                  (Kafka.deserialize one_wire)
                ≡ ok (registered_event service 5 request))))
unfolding empty_relay
delivers_post_route_example =
    delivers_post_route service one_wire payload_text 3 5 request no_rfqs (empty_relay 3) abandoned
      1 "c1" here refl refl no_event reads_back abandoned-reach
