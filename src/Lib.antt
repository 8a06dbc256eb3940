-- ===== src/Lib.antt =====
-- dion is a control plane for media servers (SFUs). A global service, isglb, collects the status of
-- every SFU, asks an algorithm for the statuses that it would rather see, and sends these back. An
-- SFU's syncer compares a wanted status with what it keeps in `DisorderSet`s, and starts, replaces
-- and stops the forwarding and proceeding of tracks by the differences.
--
-- Files, and the code that they are about:
--   Prelude               Boolean tests, lists over the native numbers, and Go maps as association
--                         lists (GoMap), and the order of texts by bytes (Order). The entries of a
--                         map are in the order in which they came in. Go leaves the order of a loop
--                         over a map open; the model takes this one.
--   Proto                 the messages of proto/isglb.proto. ion.Node, anypb.Any, and String() and
--                         proto.Clone of a message are parameters (Ion, Message): a clone is equal
--                         to the message.
--   Util/Set              util/set.go, with Sort as an insertion sort. An item's Key, Compare and
--                         Clone are the record Item, and Lawful says what the interface's comments say of them. Index,
--                         Diff, Same, Update, Replay, Invariant and Sorted hold the proofs.
--   Util/SetMap           util/setmap.go: SetMap and the two-way relation SetMapaMteS.
--   Util/Items            util/stringimpl.go, util/pbimpl.go and util/nodeimpl.go: the items. The
--                         pattern of a key made with fmt.Sprintf is a parameter.
--   Isglb/Service         pkg/isglb/service.go: routineSFUStatusRecv as a step function over events
--                         (a message arrives, the queue is found empty, a stream registers or
--                         removes its channel). The algorithm is a parameter with a state of its own.
--                         Forget, Send and Receive hold the proofs. A blocked or closed channel is
--                         not modelled.
--   Isglb/Sender          pkg/isglb/service.go: routineSFUStatusSend and its goroutine for each node.
--                         The errors of Send are left out. Latest holds the proofs.
--   Isglb/Client          pkg/isglb/client.go: the loop of SendSFUStatus over its attempts. Sending holds the
--                         proofs.
--   Islb/Node             pkg/islb/node.go and pkg/sxu/connpool.go: neighbours, RPC clients, and the
--                         pool of connections. NATS clients and discovery are parameters. Pool and
--                         Neighbors hold the proofs.
--   Islb/Registry         pkg/islb/registry.go: the two handlers. Answers holds the proofs.
--   Util/Watchdog         util/watchdog.go: Watch, Update, Leave and the goroutine watch as a step
--                         function; Protocol holds the proofs.
--   Util/BlockedDoor      util/blockeddoor.go: the value with its contexts (Contexts), and routine as
--                         a step function (Updates).
--   Sxu/Router            pkg/sxu/forward.go and pkg/sxu/proceed.go, one model over the item; a
--                         watchdog is the parameter that it was told last. Told holds the proofs.
--   Sxu/Syncer            pkg/sxu/syncer/syncer.go: main as a step function over the cases of its
--                         select, with the deliveries and session events that reach its channels. Sync
--                         and Reach hold the proofs. Sending to isglb is a list of what was sent.
--   Sxu/Bridge            pkg/sxu/bridge/bridge.go: Update and the entrances of a bridge. Whether the
--                         processor takes a procedure is a parameter. Entrances holds the proofs.
--   Sxu/Peer              pkg/sxu/bridge/common.go and pkg/sxu/bridge/bridgesub.go: the candidates and the
--                         answers of a bridge's subscriber. Stored and Handed hold the proofs.
--   Sxu/Rtc               pkg/sxu/rtc/tracksame.go: when RTC.Update subscribes anew; the published
--                         tracks are a parameter. Layers holds the proofs.
--   Sxu/Room              pkg/sxu/room/service.go: ClientHealth in two steps and the session events. Told and
--                         Alive hold the proofs.
--   Sxu/RoomClient        pkg/sxu/room/client.go: Client, a turn of keepAlive as one step. Connections holds
--                         the proofs.
--   Sxu/Receivers         pkg/sxu/rtc/receivers.go and pkg/sxu/rtc/rtc.go: Run and onSingalHandle. Answered
--                         holds the proofs. The local peer's answers come with the messages.
--   Sfu/Messages          the messages of proto/rtc of another repository, by the fields that are used.
--   Sfu/Requests          pkg/sfu/send.go and pkg/sxu/rtc/senders.go: the messages that are built.
--   Sfu/Replies           pkg/sfu/service.go: what the cases of Signal answer and return.
--   Sfu/Subscribe         pkg/sfu/service.go: the calls of a subscription.
--   Sfu/Signal            pkg/sfu/service.go and pkg/sfu/tracker.go: SFUService with all its streams as a
--                         step function. Stable and Steps say which changes an event makes, Registered and
--                         Sessions hold the proofs. The answers of ion-sfu and the errors of the tested
--                         calls of Send come with the events. What 800 ms after the first track
--                         are published is an event, while the stream is open.
--   Sfu/Tracked           which joins of pkg/sfu and pkg/sxu/rtc the service tracks.
--   Sfu/Candidates        pkg/sfu/trickle.go, pkg/sfu/negotiate.go, and the handlers of messages of
--                         pkg/sfu/subscriber.go and pkg/sfu/publisher.go. The peer connection of WebRTC
--                         is a parameter; Keeps is what the code relies on. InOrder holds the proofs.
--   Sfu/Connections       pkg/sfu/subscriber.go and pkg/sfu/publisher.go: the peer connection that a
--                         reconnect replaces. Tidy and Closed hold the proofs.
--   Algorithms/Stupid     algorithms/impl/stupid.go. Added holds the proofs.
--   Util/Timer            util/timer.go: ExpireSetMap with its timers and their goroutines. Find, Expiry and
--                         Gone hold the proofs. When a timer expires is an event. Stop is not modelled.
--   Util/Client           util/client.go: Client one call at a time (Contexts), and Reconnect among other
--                         goroutines, while the client is not closed (Reconnect); Send of
--                         pkg/sfu/client.go.
--   Util/Lock             util/lock.go: the executors, that of SingleWaitExec with the end of the
--                         context that it was given. Single and Wait hold the proofs.
--   Tests                 runs, and the theorems applied to concrete values.
--
-- All loops of the code run over lists and maps and are structural recursion here; no definition
-- needs fuel. Log lines are left out. Networking (NATS, gRPC, WebRTC), the media pipeline and the
-- command line programs are not modelled: they call other repositories.
pub mod Prelude
pub mod Proto
pub mod Util
pub mod Algorithms
pub mod Isglb
pub mod Islb
pub mod Sxu
pub mod Sfu
mod Tests
