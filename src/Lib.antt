-- ===== src/Lib.antt =====
-- go-reverse-rpc: a device answers calls that reach it over MQTT, and the calling side uses Go's
-- `net/rpc` on top of MQTT messages.
--
-- Parts of the program and the files here that model them:
--   * context.go, constants.go -> Context: `RequestContext` with the flag `replyed` that lets one
--     reply through (`reply` is `Reply`, `compare_and_swap` its first line). Context/Replies is
--     about replies one after the other.
--   * server.go, server_option.go -> Server, Server/Options: handlers, callbacks, options.
--     Server/Call is `Server.Call` as a machine of two goroutines, the caller (limiter, lookup of
--     the handler, wait for the pool's job, deferred function) and the job (handler, `recover`,
--     `ErrNoReply`). Both reply through the same `RequestContext`; `Phase` cuts `Reply` into its
--     atomic steps, and a `List Move` is an interleaving of the two and of the pool's timeout.
--     AtMostOnce, Answers, Served, InTime, Completes, Returns and Race hold the theorems.
--     Server/Metrics is `RegisterMetrics`, Server/Rounding the rounding of durations.
--   * compressor/compressor.go -> Compressor, Compressor/Buffers: the manager's pool of buffers over
--     a heap of arrays, so that a returned slice is seen to share its array with a pooled buffer.
--     What a writer does with content in the array of its own buffer is left to the package
--     (`Input`). Compressor/Lifetime follows a manager from its start.
--   * mqttpb/codec.go, mqttpb/base.proto -> Mqttpb/Messages, Mqttpb/Codec: the codecs of the
--     two sides, over the compressor.
--   * mqttpb/server.go, mqttpb/context.go -> Mqttpb/Server: received requests, reply topics, and
--     `MQTTContext.Reply` and `Bind`. Mqttpb/Service: `MQTTContext` as the `ChildContext` of a call
--     (`child_context`), what the call's replies publish (`deliver`), and `NewServer`
--     (Mqttpb/Service/Setup). Served, Received, Reading and RpcCall join the client, the two
--     codecs and `Server.Call`.
--   * mqttpb/rpc_client.go -> Mqttpb/ClientCodec: the codec that `net/rpc` drives, with its map
--     of pending calls.
--   * mqttpb/conn.go -> Mqttpb/Conn: the connection of one call, where the callback
--     of the subscription and `Read` meet in an unbuffered channel. Mqttpb/Conn/Registered: what
--     it registers with the adapter. mqttjson/conn.go -> Mqttjson/Conn: the same connection, for any
--     adapter with the interface's operations; Mqttjson/Conn/Leaks is about its calls of the
--     adapter.
--   * Mqttpb/WholeCall and Mqttjson/WholeCall join the client's topics, connection and codec with the
--     server.
--   * mqttpb/client.go -> Mqttpb/Client: the topics and the codec of a call. Mqttpb/Client/Topics
--     and Mqttpb/Client/Codecs are about the topics, and about a codec of the pool.
--   * mqttjson/common.go, mqttjson/server.go, mqttjson/context.go, mqttjson/rpc_client.go ->
--     Mqttjson/Messages, Mqttjson/Server, Mqttjson/Service, Mqttjson/ClientCodec: the same of the
--     JSON transport.
--   * mqttjson/client.go -> Mqttjson/Client, and Mqttjson/Client/Handles for the methods that the
--     adapter carries out (as Mqttpb/Client/Handles for mqttpb/client.go).
--   * mqttadapter/mqtt.go -> Adapter/Callbacks (callbacks on connection and its loss),
--     Adapter/Client (subscriptions and publications), Adapter/Connecting (the loop of
--     `ConnectAndWaitForSuccess`; Looping and Disconnected run it on the adapter's state).
--     Adapter/Callbacks/Repeats and Adapter/Client/Resubscribes are about clients that connect again
--     and again, Adapter/Callbacks/Lifetime about registries from the start.
--     `OnConnect` has two steps, `on_connect_ask` before its lock and `on_connect_lost` under it, and
--     others may act in between.
--   * mqttadapter/interface.go -> Adapter/Interface: the methods as a record of operations, what the
--     transports rely on as a record of laws (Laws), and mqtt.go as their implementation (Filled).
--   * mqttadapter/options.go, and `New` of mqttadapter/mqtt.go -> Adapter/Options: an option is a
--     function on options that record the calls of the MQTT library's setters (`Setting`).
--   * telemetry/telemetry.go -> Telemetry (the set-up, with the program's global providers as a
--     state), Telemetry/Requests (the recorded metrics and spans).
--   * examples/basic/types.go, examples/basic/server/main.go -> Examples/Math: the methods of the
--     example server, on the JSON transport.
--   * Topics: `strings.Replace`, `strings.ReplaceAll` and `path.Join` on byte strings. Topics/Paths is
--     about the levels of a joined topic.
--   * Base, Errors: shared types, Go maps (Base/Dict), Go's `int` and `int32` (Base/Int),
--     text in UTF-8 (Base/Utf8).
--
-- A request arrives in `receive` (Mqttpb/Server), is unmarshalled by the server's codec, which calls
-- the compressor, and becomes a `ChildContext` under a `RequestContext` on which `Server.Call`
-- runs. The replies of `Server.Call` and of the handler go through `RequestContext.Reply` to
-- `MQTTContext.Reply`, which marshals and publishes to the reply topic. The client's codec
-- reads that message.
--
-- Parameters: compression packages (`Algorithm`, with the contracts `Lossless` and
-- `EmptyInput`), the wire format of protobuf messages (`Wire`, with the contracts
-- `FaithfulRequests` and `FaithfulResponses`, at messages whose strings are UTF-8 and whose numbers
-- fit their Go types),
-- encoding/json (`Json`, with the contract `Lawful`), the validator and the targets of `Bind`
-- (`Binding`), the float64 arithmetic of the example (`Floats`), the trace propagator, the
-- constructors of OpenTelemetry (`Sdk`), telemetry and
-- callbacks as changes of a world `W`, the transport's `Reply`, and what the rate limiter, the
-- clock and the worker pool answer (`Env`). A handler is a tree of its replies (`Program`): Go
-- code between two replies is taken to have no other effect on the request. A handler that never
-- ends is not modelled.
--
-- Bounds: recursion is structural, and no definition takes fuel: loops that wait
-- (`ConnectAndWaitForSuccess`, `io.ReadAll`) recurse on the list of what their passes read. `int`
-- results are integers `ℤ`, with the wrap-around of `int32` written out (Base/Int). Request numbers,
-- lengths and the counters of callbacks are natural numbers: the program only counts them up from
-- zero or copies them, and 2 ^ 63 steps are not reached.
--
-- Not modelled: logging; the other programs under examples/, and the files and signals of the
-- example server; the dispatch of `net/rpc` between `Go` and the codecs; samplers,
-- views and intervals of OpenTelemetry;
-- mocks and generated protobuf code. The lock of a mutex is an atomic step. The goroutines that an
-- event of the client starts for its callbacks run one after the other, in the order of the map's
-- list. A limiter, a pool and a map that calls share show in what `Env` answers. The metrics of
-- `RegisterMetrics` hold nanoseconds, where the code observes seconds as a float.
pub mod Base
pub mod Errors
pub mod Context
pub mod Compressor
pub mod Topics
pub mod Mqttpb
pub mod Server
pub mod Mqttjson
pub mod Telemetry
pub mod Adapter
pub mod Examples
pub mod Tests
