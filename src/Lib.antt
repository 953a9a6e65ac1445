-- ===== src/Lib.antt =====
-- provider_agent_proxy: a model of the provider agent, a TCP proxy, of the etcd v3 client beside it, and
-- of the parts of wangle that carry them: pipelines, their handlers and the connection manager; with
-- theorems on what they do.
--
-- How the program is put together: the provider agent (wangle/chijinxin/ProviderAgent.cpp) accepts
-- connections with a wangle server bootstrap and puts a pipeline of handlers on each; its frontend
-- handler connects to a backend and copies bytes both ways. The etcd client (wangle/v3) builds
-- requests, sends them through gRPC stubs and turns the replies into responses. The codecs of wangle
-- (wangle/codec) are handlers that cut the byte stream of a socket into frames, and back. A pipeline
-- (wangle/channel) links handlers, so that what is read goes from one to the next and what is written
-- comes back. The connection manager (wangle/acceptor) keeps the connections of a server, drops idle
-- ones and drains them all for a shutdown.
--
-- Files and code:
--   Agent/Split        StringSplit of wangle/chijinxin/utility.h.
--   Agent/Proxy        ProxyFrontendHandler and ProxyBackendHandler of ProviderAgent.cpp, with what
--                      AsyncSocketHandler and EventBaseHandler (wangle/channel) do in the frontend
--                      pipeline: `handle` is one event, `Run` a sequence of events that can happen.
--   Channel/Pipeline   Pipeline.{h,cpp}, Pipeline-inl.h and HandlerContext-inl.h of wangle/channel:
--                      the contexts and their lists (Pipeline, Removal), finalize() (Finalize), and
--                      the events that go from handler to handler (Events). Passage describes their
--                      way without links; Building is the relation of what calls can build.
--   Acceptor/ConnectionManager  ConnectionManager.{h,cpp} and the drain state of ManagedConnection.h
--                      (wangle/acceptor): the list with its two iterators, the drain in rounds of the
--                      event loop (Draining), and drops (Dropping).
--   Channel/OutputBuffering  OutputBufferingHandler of wangle/channel/OutputBufferingHandler.h, with
--                      the callback of the event loop as an event.
--   Cache/InMemory     LRUInMemoryCache.h and -inl.h of wangle/client/persistence: `apply` is one
--                      operation.
--   Cache/Persistent   LRUPersistentCache.h and -inl.h: `sync_body` is a round of the syncer thread,
--                      `handle` a round or an operation of a client between two rounds, and
--                      `sync_loop` the loop of sync() for which the destructor waits.
--   Service/ServerDispatcher  PipelinedServerDispatcher of wangle/service/ServerDispatcher.h: `run` is
--                      any sequence of requests and of responses of the service.
--   Codec/Decoder      ByteToMessageDecoder::read (wangle/codec/ByteToMessageDecoder.h): `read_loop`
--                      is its loop over any `decode`, with the events that the next handler sees.
--   Codec/FixedLength  FixedLengthFrameDecoder.h.
--   Codec/LengthField  LengthFieldBasedFrameDecoder.{h,cpp}: `create` is the constructor, `decode`
--                      the handler, with the wrap-around of uint32_t, int32_t, int and uint64_t.
--   Codec/Prepender    LengthFieldPrepender.{h,cpp}: `write`.
--   Codec/Line         LineBasedFrameDecoder.{h,cpp}: `find_loop` is the loop of findEndOfLine, with
--                      its counter and its cursor apart.
--   V3/Messages        the fields of etcd's protocol buffers that the client uses.
--   V3/Transaction     Transaction.cpp, V3/Response V3Response.hpp and the ParseResponse functions,
--                      V3/Action the actions, each a `request` and a `parse_response`.
--   V3/Prefix          which keys a request selects. V3/Values: what get and delete answer.
--   V3/Watching        the loops of AsyncWatchAction over the list of what its completion queue
--                      reports.
--   V3/Server          the transactional actions run against an etcd store.
--   Folly, Common      folly's buffers, and the lemmas that the other files share.
--
-- Parameters: folly's IOBufQueue and Cursor are the record `IoBuf` (Folly/Interface), whose laws are
-- the documented effects of split, trimStart, skip, and of reading and writing integers; lists of
-- bytes meet them (Folly/ListBuf). etcd's KV service is the record `EtcdKv` (V3/Server/Interface),
-- whose laws are those of transactions, puts, ranges and deletions of single keys; a store in memory
-- meets them (V3/Server/Memory). folly's EvictingCacheMap is a record as well (Cache/Interface), and
-- a map of one pair meets its laws; so are the
-- virtual functions of CachePersistence. None of these is code of the repository.
--
-- Fuel: `read_loop` and `split_loop` take fuel, and `read` and `string_split` give them one more than
-- the bytes at hand, which is enough as each round takes a byte at least. `deliver` of a pipeline takes
-- fuel: the number of contexts is enough for an outbound event, and twice that for an inbound one. The
-- loops of the connection manager stop at 64 connections, or at the number asked for, as the code's
-- do; `loop_rounds` counts rounds of the event loop, and `sync_loop` those of the
-- syncer, of which the number of attempts and one more are enough. The loop of sendResponses takes
-- as many rounds as there are requests without a response, and one more.
--
-- Machine integers: a number of w bits is a natural number, or an integer of Common/Int, and the
-- conversions are written out (`to_u32`, `to_i32`, `% 2 ^ 32`). The sum of two ints in
-- LengthFieldPrepender::write, undefined in C++ where it overflows, wraps around here. So does the
-- syncer's count of failures, an int: it and the number of attempts are residues modulo 2 ^ 32.
--
-- Not modelled: threads (a run is one sequence of events), logging, flags and `main`; of pipelines the
-- futures of writes, and handlers that keep a state or change the pipeline during an event; the
-- acceptor, the bootstraps, the other services and the TLS parts of wangle; the gRPC stubs and
-- contexts; and the call of a stub that fails to be sent.
pub mod Common
pub mod Folly
pub mod Acceptor
pub mod Agent
pub mod Cache
pub mod Channel
pub mod Codec
pub mod Service
pub mod V3
