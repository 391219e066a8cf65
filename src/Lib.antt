-- ===== src/Lib.antt =====
-- lhcluster: a broker that hands the requests of clients to workers over ZeroMQ sockets, the workers
-- with their request processors, the clients with their proxies, and the publishers of and
-- subscribers to notifications.
--
-- The program. A client sends a request, with a type and an id, to a broker; the broker hands it to
-- a worker that supports the type, or keeps it waiting until one has room, and passes the response
-- back. It watches the workers by heartbeats, and when one dies it tries the worker's requests again
-- or tells the clients, as the request's flags say. A client speaks to the broker through the client
-- proxy of its process, which keeps the requests that wait for receipts and sends them again when it
-- has to reconnect. A worker gives a request to its request processor, which calls the handler of
-- the program's user, and sends the response back by the envelope of the request; it reconnects when
-- the broker is silent. A subscriber to notifications takes commands from the thread that owns it.
--
-- What models what (paths from the repository's root):
--   Cluster        liblhcluster/include/lhcluster/lhcluster/cluster.h: message types, statuses,
--                  versions, flags
--   Wire           the frames, as an argument of the model: zframe_t of czmq, and the values that
--                  liblhcluster/src/zmqframehandler.cxx serialises by protobuf; Wire.Envelope is the
--                  envelope code of liblhcluster/src/utils.cxx
--   RequestState   liblhcluster/src/requeststate.cxx
--   Context        liblhcluster/src/brokerrequesttypecontext.cxx
--   WorkerInfo     liblhcluster/src/workerinfo.cxx and workerinfolookup.cxx
--   Broker         liblhcluster/src/broker.cxx: State (the fields and the actions), Parse (the frame
--                  checks), Replies, Forward, Client, Availability, Death, Worker (the handlers),
--                  Reactor (the dispatch and the callbacks)
--   Action         the actions of the other actors, and rules for what they keep
--   Worker         liblhcluster/src/worker.cxx, with clientrequestcontext.cxx and
--                  workerrequesttypecontext.cxx: State, Parse, Requests (new requests and responses),
--                  Messages (ready messages, heartbeats, the pulse; SendHeartbeat of utils.cxx), Reactor
--                  (the dispatch, the callbacks, the loop of StartAsPrimary)
--   Proxy          liblhcluster/src/clientproxy.cxx, and clientrequestbuffer.cxx as Proxy.Buffer: State,
--                  Parse, Handlers, Reactor
--   Client         liblhcluster/src/client.cxx, and requestresponse.cxx as Client.Response
--   Processor      liblhcluster/src/requestprocessor.cxx
--   Notify         liblhcluster/src/notifysubscriber.cxx, with the loop of StartAsPrimary in
--                  Notify.Reactor, and notifypublisher.cxx as Notify.Publisher;
--                  Notify.Strings is the text form of notification types in zmqframehandler.cxx
--   Safety         what holds over any run of the broker
--   Common         maps, sets, lists and integers; Tests: small brokers
-- Broker.Reading, Dispatch, Requests, Waiting, Sending, Taken, Undo, Room, Keeping, Handover and
-- Rounds are proofs about the handlers, Context.Queue and Context.Links about the queue,
-- WorkerInfo.Capacity about a worker's room, Cluster.Order about the protocol's numbers.
-- Worker.Tracking, Handlers and Invariant are proofs about the worker's records, Worker.Service,
-- Outcomes and Journey about a request's way through it, Worker.Broker about its messages at the
-- broker, Worker.Life and Rounds about its time; Proxy.Pending is about the buffer, Proxy.Kept, Life
-- and Lasting about its entries, Proxy.Passage about messages on their way; Client.Waiting is about
-- RetrieveResponses and Client.Journey about the whole way of a request and of its response;
-- Processor.Served joins worker and processor, Notify.Commands follows a command, and Notify.Rounds
-- and Renewed are about the subscriber's loop.
--
-- How the code is read. A handler is an action on the record Broker.State.Broker: it returns the
-- code that the function returns, or throws (a frame that protobuf cannot parse), or does what C++
-- leaves undefined, with the fault as a value: an iterator at its end that is followed, a pointer to
-- an object that is gone, a null message, a list iterator that is not in the list. A WorkerInfo* is
-- the worker's identity, a RequestState* the type and the id under which its context owns the
-- object, a list iterator a number that the list gives out once. A ZMQMessage* is an option; Send
-- sets it to null when it succeeds. What the n-th call of Send returns is a function that the state
-- holds, which is left open; the calls are recorded. The order in which a hash map is visited is the
-- order of a list. The build without DEBUG and STATS is modelled. Times are integers, the free
-- capacity wraps at 2 ^ 32, and the try count is a 16-bit number.
--
-- The worker, the proxy, the client, the processor and the subscriber are read in the same way, each
-- with its own state; their handlers return or throw. The address of a frame is a number that is
-- given out once, since no frame gets the address of one that lives; only the proxy's buffer looks
-- at it. zmsg_next past the last frame gives no frame. A round of StartAsPrimary has what it meets
-- as its argument: the clock, how many calls of the set-up fail, and what wakes the reactor. An
-- entry of the proxy's buffer is visited in the order of a list, where std::map has the order of the
-- keys. A field of another wire type than the parser expects is skipped, as protobuf documents, and
-- leaves the value 0.
--
-- Loops. The loops over request types and requests are recursions over lists. The loop `while (
-- FreeCapacity() > 0 && thereAreMoreRequests )` runs on a number of rounds, the worker's free
-- capacity plus two, and the model has a fault where they run out; Broker.Rounds has the bound. The
-- loops of RetrieveResponses run over what the poller finds in each pass and the nanoseconds that
-- the clock shows at its end; Client.Waiting says when they end, if zpoller_wait waits as long as it
-- documents.
--
-- Not modelled: Start and Stop, the broker's controller socket and the threads; the set-up of
-- sockets and callbacks; czmq and protobuf (third-party code, as above); the client's sockets, the
-- publisher's sockets, the notify broker, parameters, factories, logging and statistics; the Python
-- packages.
pub mod Common
pub mod Cluster
pub mod Wire
pub mod RequestState
pub mod Context
pub mod WorkerInfo
pub mod Broker
pub mod Safety
pub mod Action
pub mod Worker
pub mod Proxy
pub mod Processor
pub mod Notify
pub mod Client
pub mod Tests
