-- ===== src/Client/History.antt =====
-- What a client does one thing after another: the operations that its user starts, and the events
-- that its timers, its writers and its reader raise.
use mqtt.Base.{ℕ, List, [], ◌∷◌, Result, ok, ◌>>=◌, arith, All}
use mqtt.TopicFilter.{Level}
use mqtt.Packet.Subscribe.{Subscribe}
use mqtt.Packet.Unsubscribe.{Unsubscribe}
use mqtt.PublishOptions.{Argument}
use mqtt.Client.States.{ConnectionSm}
use mqtt.Client.{ConnectOptions, Completion, Client, new_client, close}
use mqtt.Client.WellFormed.{IsWellFormed}
use mqtt.Client.Publisher.{publisher, start_sender}
use mqtt.Client.Sending.WellFormed.{start_publish-IsWellFormed}
use mqtt.Client.Delivering.{start_filter_subscribe}
use mqtt.Client.Delivering.WellFormed.{Keeps}
use mqtt.Client.Subscribing.{SingleSubscription, start_subscribe, start_unsubscribe}
use mqtt.Client.Subscribing.WellFormed.{start_subscribe-Keeps, start_unsubscribe-IsWellFormed}
use mqtt.Client.Connecting.{start_disconnect}
use mqtt.Client.Machine.{Event}
use mqtt.Client.Machine.Dispatch.{
  Region, process_event, handshaker, connect_receiver, start_connect,
}
use mqtt.Client.Machine.Kept.{IsExternal, IsKept}
use mqtt.Client.Machine.Processed.{bind-Keeps, process_event-Keeps, start_connect-Keeps}
use mqtt.Client.Machine.Linked.{IsLinked, IsLinked-IsKept, IsJoined, IsJoined-IsKept}

pub data Operation : Type 0 where
  publishes : List ℕ → List ℕ → List Argument → ℕ → Operation
  subscribes : (Subscribe → Subscribe) → List SingleSubscription → ℕ → Operation
  unsubscribes : Unsubscribe → ℕ → Operation
  waits : List Level → ℕ → Operation
  takes_options : ConnectOptions → Operation
  takes_connector : ℕ → Operation
  connects : Operation
  disconnects : ℕ → Operation
  closes : Operation
  happens : Event → Operation

module _ (resume : Completion → Client → Client) (order : List Region) where
  unfoldable pub run_operation : Operation → Client → Result Client
  unfolding start_sender publisher handshaker connect_receiver
  run_operation (publishes topic payload opts receiver) c =
      ok (start_sender resume (publisher topic payload opts) receiver c)
  run_operation (subscribes modifier subs receiver) c = start_subscribe modifier subs receiver c
  run_operation (unsubscribes unsub receiver) c = ok (start_unsubscribe unsub receiver c)
  run_operation (waits filter receiver) c = ok (start_filter_subscribe filter receiver c)
  run_operation (takes_options opts) c = ok (handshaker opts c)
  run_operation (takes_connector receiver) c = ok (connect_receiver receiver c)
  run_operation connects c = start_connect resume order c
  run_operation (disconnects reason) c = ok (start_disconnect reason c)
  run_operation closes c = ok (close c)
  run_operation (happens e) c = process_event resume order e c

  unfoldable pub run_history : List Operation → Client → Result Client
  unfolding run_operation
  run_history [] c = ok c
  run_history (o ∷ os) c = run_operation o c >>= run_history os

-- The events of a history are those that come from outside.
abbrev pub IsOperation : Operation → Type 0
IsOperation (happens e) = IsExternal e
IsOperation o = Unit {0}

module _ {P : ConnectionSm → Type 0} (kept : IsKept P) (resume : Completion → Client → Client)
    (order : List Region)
    (resume_keeps : (x : Completion) (c : Client)
      → IsWellFormed P c
      → IsWellFormed P (resume x c)) where
  run_operation-Keeps :
      (o : Operation) (c : Client)
      → IsOperation o
      → IsWellFormed P c
      → Keeps P (run_operation resume order o c)
  unfolding run_operation start_sender start_filter_subscribe handshaker connect_receiver
      start_disconnect
  run_operation-Keeps (publishes topic payload opts receiver) c h w =
      let sender = publisher topic payload opts in
      start_publish-IsWellFormed resume resume_keeps sender.modifying_function sender.message
        receiver c w
  run_operation-Keeps (subscribes f subs r) c h w = start_subscribe-Keeps f subs r c w
  run_operation-Keeps (unsubscribes unsub r) c h w = start_unsubscribe-IsWellFormed unsub r c w
  run_operation-Keeps (waits filter r) c h w = w
  run_operation-Keeps (takes_options opts) c h w = w
  run_operation-Keeps (takes_connector r) c h w = w
  run_operation-Keeps connects c h w = start_connect-Keeps resume resume_keeps kept order c w
  run_operation-Keeps (disconnects reason) c h w = w
  run_operation-Keeps closes c h w = w
  run_operation-Keeps (happens e) c h w = process_event-Keeps resume resume_keeps kept order e c h w

  run_history-Keeps :
      (os : List Operation) (c : Client)
      → All IsOperation os
      → IsWellFormed P c
      → Keeps P (run_history resume order os c)
  unfolding run_history
  run_history-Keeps [] c h w = w
  run_history-Keeps (o ∷ os) c h w =
      bind-Keeps P P (run_operation resume order o c) (run_history resume order os)
        (run_operation-Keeps o c h.0 w) (λ c' w'. run_history-Keeps os c' h.1 w')

module _ (resume : Completion → Client → Client) (order : List Region) where
  -- Whatever a new client does and whatever outside events its state machine processes, one
  -- thing after another, with receivers that keep the invariant, 16-bit receive maxima in
  -- CONNACKs and the regions served in any order, a client that comes out is well formed: the
  -- quota is within its maximum, identifiers are never 0, the state of each message agrees with
  -- its quality of service, the identifiers of kept QoS 2 messages are distinct, and the regions
  -- of pings and of the keep-alive wait only in a connected client.
  pub run_history-IsWellFormed :
      ((x : Completion) (c : Client) → IsWellFormed IsLinked c → IsWellFormed IsLinked (resume x c))
      → (os : List Operation) → All IsOperation os
      → Keeps IsLinked (run_history resume order os new_client)
  run_history-IsWellFormed keeps os h =
      run_history-Keeps IsLinked-IsKept resume order keeps os new_client h (record {
        identifier = omega arith;
        maximum = omega arith;
        sends = omega arith;
        in_flight = tt;
        waiting = tt;
        unreleased = tt;
        machine = ground arith;
      })

  -- A client that is connected is connected after whatever it does and whatever outside events
  -- come, a disconnect, a close and the time-outs among them. Its receivers keep the state.
  pub run_history-IsJoined :
      ((x : Completion) (c : Client) → IsWellFormed IsJoined c → IsWellFormed IsJoined (resume x c))
      → (os : List Operation) (c : Client) → All IsOperation os
      → IsWellFormed IsJoined c
      → Keeps IsJoined (run_history resume order os c)
  run_history-IsJoined keeps os c h w =
      run_history-Keeps IsJoined-IsKept resume order keeps os c h w
