-- ===== src/Lib.antt =====
-- PySOA: services, clients and the Redis transport between them.
--
-- A client (pysoa/client/client.py) sends a job of actions through a transport; a server
-- (pysoa/server/server.py) receives it, runs its actions through middleware, and sends a response
-- back through the transport. This library models the Redis transport
-- (pysoa/common/transport/redis_gateway), the handling of a request by the server, actions and
-- switched actions, the futures, handlers, headers and calls of the client, the local transport in
-- which a client runs its server itself, expansions, the supervision of forked servers, the censoring
-- of logged dictionaries, and the packets and contexts of log records.
--
-- Files and code:
-- - Errors: pysoa/common/transport/errors.py, and results of code that raises these.
-- - Value: what dictionaries of requests, responses and logs hold.
-- - RedisGateway.Protocol: redis_gateway/constants.py. The regular expression is a function on byte
--   strings, and ProtocolVersion.extract_version is `extract_version`.
-- - RedisGateway.Headers: SUPPORTED_HEADERS_RE and _extract_supported_headers of
--   redis_gateway/core.py. The loop has the length of the message as its bound.
-- - RedisGateway.Core: the settings of the cores and their validators; Serializer, whose two
--   functions are parameters, and Serializer.resolve_serializer (common/serializer/base.py).
-- - RedisGateway.Chunks: _serialize_check_and_chunk_message.
-- - RedisGateway.Queue: the Lua script of redis_gateway/backend/base.py and send_message. A queue is
--   the list of its messages; what its other users do before each attempt, and how a call of the
--   script ends, is a schedule.
-- - RedisGateway.Receive: _receive_message and receive_message, over the list of what the pops of
--   the queue come back with.
-- - RedisGateway.RoundTrip: what a server sends, received by a client.
-- - RedisGateway.Backend: get_connection and _get_consistent_hash_index of redis_gateway/backend/base.py,
--   with the checksum written out; RedisGateway.Backend.Sentinel: redis_gateway/backend/sentinel.py,
--   where the Sentinels are a parameter.
-- - RedisGateway.ClientTransport: the state of RedisClientTransport (redis_gateway/client.py).
-- - RedisGateway.QueueNames: the queues that RedisClientTransport and RedisServerTransport
--   (redis_gateway/server.py) use. The body of a message and its handling are parameters.
-- - Server.Types: pysoa/common/errors.py, pysoa/common/types.py, pysoa/server/errors.py,
--   pysoa/server/types.py. An exception is a value of `Raised`.
-- - Server.Responses, Server.Job: make_middleware_stack, process_job, execute_job and
--   handle_unhandled_exception of pysoa/server/server.py, over a world that actions change.
-- - Server.Requests: handle_next_request and handle_job_error_code; its hooks are parameters.
-- - Server.Shutdown: handle_shutdown_signal, also for one signal after the other, and the loop of run;
--   Server.Shutdown.Harakiri: the handler
--   of the alarm, events of both kinds one after the other, and the update of the heartbeat file.
-- - Server.Switches: pysoa/server/internal/types.py and pysoa/server/action/switched.py.
-- - Server.Action: Action.__call__ of pysoa/server/action/base.py.
-- - Server.LocalActions: EnrichedActionRequest.call_local_action of pysoa/server/types.py.
-- - Server.Status: run and _check_client_settings of pysoa/server/action/status.py.
-- - Server.Introspection: which actions pysoa/server/action/introspection.py describes, by name, and
--   how its regular expression reads a name.
-- - LocalTransport: LocalClientTransport of pysoa/common/transport/local.py, around
--   handle_next_request; LocalTransport.Channel: a client's calls of it, and the queue that they refine.
-- - Standalone: _ProcessMonitor.run and the signal handler of pysoa/server/standalone.py. The ends of
--   the process and the signals are a list of rounds.
-- - Client.Handler: ServiceHandler and _get_handler of pysoa/client/client.py, and its stream of
--   responses on a Redis transport.
-- - Client.Headers: _make_control_header and _make_context_header there; Client.Sending: send_request,
--   from the arguments to the handler that sends.
-- - Client.Expander: TypeNode, ExpansionNode and ExpansionConverter of pysoa/client/expander.py;
--   Client.Expander.Candidates: _perform_expansion and the objects that it finds, and
--   Client.Expander.Requests: the rounds of requests of _expand_objects, both of
--   pysoa/client/client.py.
-- - Client.Future: FutureSOAResponse of pysoa/client/client.py.
-- - Client.Parallel: call_jobs_parallel_future, without expansions.
-- - Client.Single: what call_actions_future, call_action_future and call_actions_parallel_future make
--   of the responses.
-- - Logging.SensitiveFields, Logging.Censor: RecursivelyCensoredDictWrapper of
--   pysoa/common/logging.py.
-- - Logging.Syslog: emit and _cleanly_slice_encoded_string of SyslogHandler there. A text is the row
--   of the UTF-8 bytes of its characters, and Logging.Syslog.Utf8 says where Python's decoder fails.
-- - Logging.Context: PySOALogContextFilter there; a list is written with its last element first.
-- - Tests: runs at concrete inputs.
--
-- Numbers are natural numbers without a bound, as Python's integers are; sizes and counts are never
-- negative, and what may be negative is a ℤ. Fuel stands in five places: `decimal` prints a number
-- with one more than the number itself as its bound, and a thread's hexadecimal digits are bounded by
-- its number; the header loop is bounded by the message's
-- length, as every match takes something off; and the loop of the fragments takes the number of its
-- rounds, of which one more than there are characters are enough where there is room for any; and the
-- generator of get_all_responses takes the number of its turns, of which one more than there are
-- outstanding requests are enough.
--
-- Not modelled: metrics, log lines and waiting times; the redis package, msgpack, json and
-- Conformity, which are parameters, as is the making of a job's client; the connections that a
-- backend makes; start-up, the creation of heartbeat files and the dump of threads at an alarm;
-- the schemas that introspection describes; what is done with the responses to expansions;
-- arguments, processes and threads, and the reloading of processes (pysoa/server/autoreload.py),
-- which is adapted from another project.
pub mod Prelude
pub mod Errors
pub mod RedisGateway
pub mod Value
pub mod Logging
pub mod Server
pub mod Client
pub mod LocalTransport
pub mod Standalone
pub mod Tests
