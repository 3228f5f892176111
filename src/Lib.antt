-- ===== src/Lib.antt =====
-- HiveMindBridge connects a host to the agent of a robot swarm over TCP: it sends and receives
-- messages, cuts payloads of bytes into packets and puts them together again, and lets other agents
-- call functions of the host.
--
-- The parts, and how they interact. `spin` (HiveMindBridgeImpl) is the user's loop. Without a client
-- it listens, exchanges greetings and starts two threads; with one it hands a message of the inbound
-- queue to the message handler, acknowledges requests, and sends the returns of finished calls. The
-- inbound thread fills the inbound queue; the outbound thread sends what callers put on the outbound
-- queue and keeps a request until a response to it is in or a delay has passed.
--
-- Which file models which part:
--   Pheromones       the message library, which the build fetches: a record of types, constructors,
--                    getters and their laws, and a parameter of everything else
--   Effect           what leaves the bridge: messages given to the serializer, log entries, calls of
--                    the user's hooks, descriptors shut down and closed. A log entry has its level and its format string
--   BytesAccumulator, HiveMindHostApiRequestHandler
--                    src/BytesAccumulator.cpp, src/HiveMindHostApiRequestHandler.cpp
--   HiveMindHostApiResponseHandler
--                    src/HiveMindHostApiResponseHandler.cpp
--   Callback, UserCallbackMap, UserCallRequestHandler
--                    include/hivemind-bridge/Callback.h, src/user-call/; UserCallbackMap.Contract is
--                    include/hivemind-bridge/IUserCallbackMap.h with what it promises, and Discovery a
--                    client of it
--   MessageUtils     src/MessageUtils.cpp
--   Handle           src/InboundRequestHandle.cpp, src/InboundResponseHandle.cpp and
--                    src/OutboundRequestHandle.cpp
--   MessageHandler   src/MessageHandler.cpp
--   ThreadSafeQueue  include/hivemind-bridge/ThreadSafeQueue.h; Contract is
--                    include/hivemind-bridge/IThreadSafeQueue.h with what it promises, and Interleaving
--                    a consumer of it
--   TcpServer        src/TCPServer.cpp, with the descriptors of both sockets; Life is the connection as
--                    a state machine, and Hooks what holds of the hooks in every life
--   Bridge           the state of HiveMindBridgeImpl and `queueAndSend`; its children are SendBytes
--                    (`sendBytes`), Outbound (`inboundThread`, `outboundThread`), Spin (`spin`,
--                    `sendReturn`, `greet`), Requests (the rest of the interface, and the requests
--                    about neighbors), Transfer (a payload on its way between two bridges) and System
--                    (below)
--   HiveMindBridge   the construction and the destruction in src/HiveMindBridge.cpp; Interface has the
--                    calls of include/hivemind-bridge/IHiveMindBridge.h, which it passes on, and
--                    Answers what they return; Ending, Lifetime and Descriptors follow a bridge from
--                    the one to the other
--   Prelude, Tests   shared helpers; the theorems at concrete inputs
--
-- Functions take and return the state; names are the source's in snake case. A member `m_x` is the
-- field `x`. An operation that can run into undefined behaviour or let an exception escape returns an
-- `Access`. `std::optional` and an empty `std::function` are `Option`, a hook is a number that stands
-- for the function. `uint32_t` and `uint16_t` arithmetic wraps where the source's can. `rand` is a
-- function from the number of calls made so far, which the bridge counts in `drawn`. What the operating
-- system or the deserializer answers is an argument.
--
-- Bounds and fuel. `send_packets` recurs on the number of packets that are left, which is the loop's
-- own bound. The rounding up of a `float` quotient in `sendBytes` is modelled by integer division; the
-- two agree while the size is below 2 ^ 16, as its type says. Rounds of a thread are single functions, and
-- theorems on many rounds say how many are enough.
--
-- Threads. Bridge.System has a step relation of the whole bridge: passes of `spin` (connecting, handling
-- a message, the pass over the calls, the keep-alive), rounds of the inbound and the outbound loop, the
-- end of the thread of a call, and calls of the user, from any thread. `Run` puts steps one after the
-- other in any order that the threads allow. Its children state what holds of every run (Invariant,
-- Reach, Reached), that `spin` and `sendBytes` are runs themselves (Passes), what becomes of the two
-- queues (Front, Queue, Progress, Inbox, Unsent, Outbox), of the payloads that arrive (Payloads,
-- Delivery), of the registered names (Names), and of the server and its hooks (Silent, Server, Lives,
-- Attached, Hooks). A pass or a round is one step; ThreadSafeQueue.Interleaving looks inside. A hook
-- that calls the bridge again is a step beside the pass that called the hook; the connect hook runs
-- before the client is known, so that what it would queue is refused, which is no step.
--
-- A round of the inbound loop and a greeting lose the client at most once: after that, `recv` on the
-- closed descriptor answers -1 and not 0.
--
-- The destructor's `shutdown` ends a `recv` in which the inbound thread waits, with 0 bytes. The
-- destruction takes whether the thread waits there (`woken`), and in which order the effects of the
-- two threads come after the `shutdown` (`schedule`). What else a thread was doing when it is joined is
-- a step of the run before the destruction.
--
-- An operation that may meet undefined behaviour is related to its cause by `Outcome` (Prelude.Faults):
-- a value has the property, a fault has the cause, and no exception escapes.
--
-- The laws assumed of the message library are that a getter returns what the constructor was
-- given, and that a packet's payload is an array of the full size whose first bytes are the given ones.
--
-- Not modelled: what the operating system does with a descriptor or an address, the text that
-- fills a log entry, what a thread does while a user's function runs (the call ends in one step,
-- `finish_call`), the cut of a name at a NUL character by `c_str`, data races.
pub mod Prelude
pub mod Pheromones
pub mod Effect
pub mod BytesAccumulator
pub mod HiveMindHostApiRequestHandler
pub mod HiveMindHostApiResponseHandler
pub mod Callback
pub mod UserCallbackMap
pub mod MessageUtils
pub mod Handle
pub mod UserCallRequestHandler
pub mod MessageHandler
pub mod ThreadSafeQueue
pub mod TcpServer
pub mod Bridge
pub mod HiveMindBridge
pub mod Tests
