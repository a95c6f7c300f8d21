-- ===== src/Bootstrap.antt =====
-- bootstrap/provider and bootstrap/processes: what each process opens when it starts and closes when
-- it ends. A provider is a block round what the process does with the value that it yields.
pub mod Settings
pub mod Updates
pub mod Backends
pub mod Events
pub mod Processes
pub mod Restored
pub mod Closed
pub mod Ended
pub mod Leaks
pub mod Refused
use price_streaming.Prelude.{
  Action, Option, PyError, String, continue, none, ok, raise, some, ℕ, ℕ_eq, ◌+◌, ◌∷◌,
}
use price_streaming.Dict
use price_streaming.Dict.{Dict}

-- What stays open until it is closed: clients of services, and tasks that run beside the process.
pub data Resource : Type 0 where
  engine redis_client socket amqp_connection stream_consumer : (url : String) → Resource
  kafka_consumer kafka_producer : (bootstrap_servers : String) → Resource
  dispatcher_task consumer_task : Resource

-- The calls into client libraries that may raise.
pub data Call : Type 0 where
  consumer_start consumer_subscribe consumer_stop producer_start producer_stop : Call
  connect_robust open_channel set_qos declare_exchange declare_queue bind_queue : Call
  declare_topology bind_topology connection_close : Call
  stream_start stream_subscribe stream_close socket_connect engine_dispose : Call
  redis_close : (url : String) → Call

-- Which calls raise, and what.
abbrev pub Faults : Type 0
Faults = Call → Option PyError

-- The objects that are open, the last one first; each has a number of its own.
pub record Handles : Type 0 where
  pub fresh : ℕ
  pub opened : Dict ℕ Resource

unfoldable pub open_handle : Resource → Action Handles ℕ
open_handle r w = (ok w.fresh, record { fresh = w.fresh + 1; opened = (w.fresh, r) ∷ w.opened })

unfoldable pub call : Faults → Call → Action Handles Unit
call faults c w = elim (faults c) [ none ↦ (ok tt, w) | some x ↦ (raise x, w) ]

-- An object counts as closed once its closing call is made, whether or not the call raises.
unfoldable pub close_handle : Faults → Call → ℕ → Action Handles Unit
unfolding call
close_handle faults c handle w = call faults c (record w { opened = Dict.remove w.opened handle })

-- `cancel` of a task and `gather` with `return_exceptions=True`, which do not raise.
unfoldable pub cancel_task : ℕ → Action Handles Unit
cancel_task handle w = (ok tt, record w { opened = Dict.remove w.opened handle })

-- `socket.close(linger=0)`
unfoldable pub close_socket : ℕ → Action Handles Unit
close_socket handle w = (ok tt, record w { opened = Dict.remove w.opened handle })

-- `try: body finally: cleanup`; what the cleanup raises replaces what the body gives.
unfoldable pub try_finally :
    {A : Type 0} → Action Handles A → Action Handles Unit → Action Handles A
try_finally body cleanup w =
    let (result, w') = body w in continue (cleanup w').0 (cleanup w').1 (λ _ w''. (result, w''))
