-- ===== src/Agent/Proxy.antt =====
-- wangle/chijinxin/ProviderAgent.cpp: a connection of the proxy. The handlers of its frontend and of
-- its backend pipeline, with what wangle/channel/AsyncSocketHandler.h and EventBaseHandler.h do in
-- the frontend pipeline. A pipeline is a number.
pub mod Invariant
pub mod Forwarding
pub mod Backend
use provider_agent_proxy.Common.{
  ℕ, ◌≡◌, Bool, true, false, List, [], ◌∷◌, ◌++◌, Option, none, some, if◌then◌else◌,
}

-- The calls that leave the connection.
pub data Call : Type 0 where
  connect : Call
  write_to : ℕ → List ℕ → Call
  close : ℕ → Call
  write_frontend : List ℕ → Call
  close_frontend : Call

-- The client bootstrap: its connect is under way, it has made a pipeline, the continuation of the
-- connect has run, or the connect has failed.
pub data Client : Type 0 where
  unconnected connecting failed : Client
  made delivered : ℕ → Client

pub record Connection : Type 0 where
  -- backendPipeline_; `none` is the null pointer.
  pub backend_pipeline : Option ℕ
  -- The frontend pipeline has a transport, and the socket a read callback.
  pub transport : Bool
  pub reading : Bool
  pub client : Client
  pub calls : List Call

-- A new connection. The constructor leaves backendPipeline_ uninitialised: its value is the argument.
abbrev pub fresh : Option ℕ → Connection
fresh pointer = record {
  backend_pipeline = pointer;
  transport = false;
  reading = false;
  client = unconnected;
  calls = [];
}

abbrev pub emit : Call → Connection → Connection
emit call c = record c { calls = c.calls ++ (call ∷ []) }

-- AsyncSocketHandler::transportActive and transportInactive, on a socket that is good.
abbrev pub socket_active : Connection → Connection
socket_active c = record c { transport = true; reading = true }

abbrev pub socket_inactive : Connection → Connection
socket_inactive c = record c { transport = false; reading = false }

-- ProxyFrontendHandler::transportActive, up to the start of the connect.
unfoldable pub transport_active : Connection → Connection
transport_active c = elim c.backend_pipeline [
  | some p ↦ c
  | none ↦ emit connect (record (socket_inactive c) { client = connecting })
]

-- `frontendPipeline->transportActive()`, which passes the socket handler and then the proxy's.
unfoldable pub pipeline_active : Connection → Connection
unfolding transport_active
pipeline_active c = transport_active (socket_active c)

-- The continuation of the connect.
unfoldable pub connected : ℕ → Connection → Connection
unfolding pipeline_active
connected p c = pipeline_active (record c { backend_pipeline = some p; client = delivered p })

-- ProxyFrontendHandler::read and readEOF; `none`: the null pointer is dereferenced.
unfoldable pub frontend_read : List ℕ → Connection → Option Connection
frontend_read q c = elim c.backend_pipeline [ none ↦ none | some p ↦ some (emit (write_to p q) c) ]

unfoldable pub read_eof : Connection → Option Connection
read_eof c = elim c.backend_pipeline [ none ↦ none | some p ↦ some (emit (close p) c) ]

-- EventBaseHandler::write and close take the transport of the pipeline; `none`: it is null.
abbrev pub with_transport : Call → Connection → Option Connection
with_transport call c = if c.transport then some (emit call c) else none

-- ProxyBackendHandler::read.
unfoldable pub backend_read : List ℕ → Connection → Option Connection
backend_read q c = with_transport (write_frontend q) c

-- What happens to the connection: it is accepted; the connect makes a pipeline, its continuation
-- runs, or it fails; bytes or the end arrive from the frontend; bytes arrive from the backend; the
-- closing of the backend, asked for in `readEOF`, completes.
pub data Event : Type 0 where
  accepted connect_continues connect_fails frontend_eof backend_closed : Event
  connect_makes : ℕ → Event
  frontend_bytes backend_bytes : List ℕ → Event

abbrev pub is_unconnected : Client → Bool
is_unconnected unconnected = true
is_unconnected _ = false

abbrev pub is_connecting : Client → Bool
is_connecting connecting = true
is_connecting _ = false

abbrev pub is_made : Client → Bool
is_made (made p) = true
is_made _ = false

-- The backend pipeline is active from `connectSuccess` on.
abbrev pub is_active : Client → Bool
is_active (made p) = true
is_active (delivered p) = true
is_active _ = false

-- An event that can happen: the socket delivers only to a read callback.
abbrev pub enabled : Event → Connection → Bool
enabled accepted c = is_unconnected c.client
enabled (connect_makes p) c = is_connecting c.client
enabled connect_continues c = is_made c.client
enabled connect_fails c = is_connecting c.client
enabled (frontend_bytes q) c = c.reading
enabled frontend_eof c = c.reading
enabled (backend_bytes q) c = is_active c.client
enabled backend_closed c = is_active c.client

unfoldable pub continue_with : Client → Connection → Connection
continue_with (made p) c = connected p c
continue_with unconnected c = c
continue_with connecting c = c
continue_with failed c = c
continue_with (delivered p) c = c

unfoldable pub handle : Event → Connection → Option Connection
unfolding pipeline_active continue_with connected frontend_read read_eof backend_read
handle accepted c = some (pipeline_active c)
handle (connect_makes p) c = some (record c { client = made p })
handle connect_continues c = some (continue_with c.client c)
handle connect_fails c = some (record c { client = failed })
handle (frontend_bytes q) c = frontend_read q c
handle frontend_eof c = read_eof c
handle (backend_bytes q) c = backend_read q c
handle backend_closed c = with_transport close_frontend c

-- A run: events that can happen, each of them handled.
pub data Run : Connection → List Event → Connection → Type 0 where
  stop : (c : Connection) → Run c [] c
  step :
      (e : Event) (es : List Event) (c c' c'' : Connection)
      → enabled e c ≡ true
      → handle e c ≡ some c'
      → Run c' es c''
      → Run c (e ∷ es) c''
