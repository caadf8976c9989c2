-- ===== src/Lib.antt =====
-- RaceLink host: what its packets say, and who hears them.
--
-- The host of a RaceLink network drives LED nodes over a LoRa gateway. A user composes scenes, and
-- a scene is a list of actions: an effect on some groups or on one device, an offset group (a
-- container that gives every group a time offset and then runs child effects), a sync, a delay.
-- racelink/services/scenes_service.py validates what a client sends and keeps the scenes.
-- racelink/services/scene_runner_service.py hands each action to the planner
-- (racelink/services/dispatch_planner.py), which returns the sequence of wire operations without
-- any input or output. For the offset container the planner calls the optimizer
-- (racelink/services/offset_dispatch_optimizer.py), which picks the cheapest of three packet
-- sequences; that one calls the host's evaluator of the formula
-- (racelink/domain/offset_formula.py) and the body builders (racelink/protocol/packets.py). The
-- senders build the same bodies again from the planned parameters and hand them to the gateway.
-- racelink/services/scene_runner_service.py runs the plans one after another, and
-- racelink/services/scene_cost_estimator.py counts the packets of the same plans beforehand. The
-- replies are parsed by racelink/protocol/codec.py and come to the handler in
-- racelink/services/gateway_service.py: it completes the request that waits for the reply
-- (racelink/services/pending_requests.py), changes the device in the repository
-- (racelink/state/repository.py, racelink/domain/models.py) and restores a lost group. The same
-- service sends requests, waits for their replies and tries again.
--
-- Files, and the code each one models:
--   Prelude (and Tests, Lists, Int, Results)  shared names, lists, signed integers, results
--   Protocol.Struct         `struct.pack` and `struct.unpack_from` of the three formats in use
--   Protocol.Offset         build_offset_body, parse_offset_body, _coerce_mode of
--                           racelink/protocol/packets.py; Offset.RoundTrip has the proofs
--   Protocol.Control        build_control_body of the same file; Control.Reader is a receiver that
--                           follows the layout the file documents; proofs in Control.Masks,
--                           Control.Checks and Control.Layout
--   Protocol.Bodies         the fixed bodies of the same file
--   Protocol.Codec          parse_reply_event of racelink/protocol/codec.py; Codec.Replies has the
--                           frames a node sends
--   Domain.Flags            racelink/domain/flags.py
--   Domain.StateScope       racelink/domain/state_scope.py: the topics a browser refreshes
--   Domain.OffsetFormula    racelink/domain/offset_formula.py
--   Protocol.Rules          racelink/protocol/rules.py and the table of racelink_proto_auto.py
--   Domain.Params           the keyword arguments the planner hands on
--   Domain.Device           racelink/domain/models.py: the device and its updates
--   State.Repository        racelink/state/repository.py: the lookup by address
--   Services.WireOp, Optimizer   WireOp, OptimizerPlan and plan_offset_setup of
--                           racelink/services/offset_dispatch_optimizer.py. Optimizer.Receiver is
--                           the abstract view, a device that stores the last offset it is sent;
--                           Optimizer.Outcome is the refinement, Optimizer.Plans the form of each
--                           strategy, Selection, Cost and Total the rest
--   Services.Action, EffectPlan, Planner   racelink/services/dispatch_planner.py: the action dicts,
--                           the plan of one effect, and the plan of any action; the proofs are in
--                           Planner.Effects, Planner.Container and Planner.Total
--   Services.Scenes         the validation of group lists and offset blocks in
--                           racelink/services/scenes_service.py; Scenes.Canonical and
--                           Scenes.Accepted have what it guarantees and accepts,
--                           Scenes.Dispatch joins it to the optimizer, and Scenes.Renumber is the
--                           rewriting of ids when a group is deleted. Scenes.Slug and Scenes.Store
--                           are the operations of the store, with the collapse of complete group
--                           lists; proofs in Store.Distinct, Bulk, WellFormed and Collapse
--   Services.Scenes.Raw, Targets, Containers, Validate   the same file: what a client sends as the
--                           actions of a scene, and the validation of every kind of action, with
--                           the rewriting of the old forms. Validate.Sound has the predicate of a
--                           canonical action, Validate.Kept and Validate.Children that nothing else
--                           is kept, Validate.Planned joins it to the planner, and Validate.Written,
--                           Blocks, Reread, Reload and RoundTrip have what is written and read again
--   Services.Scenes.Load    the same file: the reading of the store's file; proofs in Load.Ids,
--                           Load.RoundTrip, Load.Collapse and Load.Dropped
--   Services.Pending        racelink/services/pending_requests.py; proofs in Pending.Matching,
--                           Pending.Waiting and Pending.Reply
--   Services.Replies        the event of the codec in the hands of the registry
--   Services.Runner         racelink/services/scene_runner_service.py; Runner.Sending and
--                           Runner.Abort have what is sent and how a run ends
--   Services.Cost           racelink/services/scene_cost_estimator.py; Cost.Parity compares it with
--                           the runner
--   Services.Gateway        the state of racelink/services/gateway_service.py, the configuration
--                           that an ACK confirms, and the restoring of a group. Gateway.Events has
--                           the handlers and the sequences of what can happen; proofs in
--                           Gateway.Devices, Unique, Reconnect, Heard and Recorded. `Host` also
--                           holds the fields of the controller (controller.py) they share
--   Services.Collect        send_and_collect of the same file; proofs in Collect.Total and
--                           Collect.Prompt
--   Services.Unicast        send_and_wait_for_reply and send_and_wait_with_retries of the same
--                           file; proofs in Unicast.Answered and Unicast.Retries
--   Services.Stream         send_stream of the same file, with the attempts; proof in Stream.Attempts
--   Services.Config         send_config of the same file; Config.Waits has how long it lasts
--   Services.Status         racelink/services/status_service.py; proof in Status.Swept
--   Services.Discovery      racelink/services/discovery_service.py; proof in Discovery.Found
--   Services.Startblock     racelink/services/startblock_service.py; proofs in Startblock.Program (the
--                           payload) and Startblock.Slots
--   Services.Control        racelink/services/control_service.py; Control.Planned compares it with the
--                           planner
--   Services.Presets        racelink/services/rl_presets_service.py: the operations of the store of the
--                           RaceLink presets; proof in Presets.WellFormed. Services.Keyed has the
--                           lemmas it shares with the scene store
--   Transport.Address       racelink/transport/framing.py: the receiver out of an address
--   Transport.Serial        racelink/transport/gateway_serial.py: the state that the reader and the
--                           senders share, and the handling of a frame. Serial.Reader is the framing
--                           automaton, Serial.Send the synchronous send, Serial.Wrappers the send_*
--                           methods; proofs in Serial.Framing, Outcome, Queue, Sent and Ack, which
--                           goes from the bytes to the request that waits
--   Transport.Ports         the port search of the same file
--   Controller.Gateway      controller.py: discoverPort, the record of an error, the retry timer and
--                           its backoff; proofs in Gateway.Inv and Gateway.Polling
--   Web.Tasks               racelink/web/tasks.py: the one task of the web interface; proofs in
--                           Tasks.Single
--   Examples                small inputs, and the theorems at them
--
-- Conventions. A Python exception is a value of `Result`: `err` with the class of the exception.
-- A missing keyword or a None is `none`. A Python int is an integer, `x & 0xFF` is `byte x`
-- (modulo 256, also of a negative x), and a group id is a natural number where the code has
-- checked or made it one. A dictionary with string keys is a record of optional fields; the
-- registry of requests is an association list. Strings are lists of character codes.
--
-- The handlers of the gateway run under the state lock, so a call is one step; a thread that one
-- of them starts is an entry of the host's list of effects, and its end is an input. What arrives
-- after a frame is sent is a list of replies with the milliseconds until each, in order, and the
-- waiter of a condition or an event wakes at once. In send_and_collect the send function returns at
-- once, so its times count from the frame on the air, and the listener ends with the wait: replies
-- that come between the last notification and the removal of the listener are not in the model's
-- list. In send_and_wait_for_reply the time that the send function blocks, and the rest after a
-- match, are numbers of the request. Times are whole milliseconds, in the cost
-- estimator microseconds. What the symbolic senders do is a parameter of the runner.
--
-- What the serial port returns is a list of chunks or failed reads, and what the reader handles
-- while a sender waits is a list of frames; the sender may get the lock back after more frames than
-- the one that woke it. What each port does when it is opened is an argument of the port search,
-- and its end is an argument of discoverPort.
--
-- Bounds. The loop of send_and_collect runs on fuel: one turn for each match that is to come and
-- two more, which is shown to be enough. The search for a free key runs over the 998 suffixes of
-- the code and raises after the last. Every other recursion is on a list, on the attempts that are
-- left, or on the nesting of the actions. Byte and 16-bit fields keep their clamps and
-- wrap-arounds.
--
-- Outside the model: logging, the time stamps that nothing reads and the float values that serve
-- only them; the serial port itself and the texts of a send's outcome; the files of the stores, with the migration of old ones; entries of a plan's `detail` that the
-- web interface alone displays; values in `params` of another type than their key is for, which the
-- store copies and the planner's `int` raises on; a store's file with a negative scene id, which the
-- program never writes; the lock of the registry (a call is one step); values of a wrong
-- type that the web layer has already refused. The preset store and the device list are parameters
-- of the planner, as two lookup functions of which nothing is assumed.
pub mod Prelude
pub mod Protocol
pub mod Transport
pub mod Domain
pub mod State
pub mod Services
pub mod Controller
pub mod Web
mod Examples
