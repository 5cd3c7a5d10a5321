-- ===== src/Lib.antt =====
-- The relay that moves IQ samples between radios over ZMQ and puts a channel model between them.
--
-- A puller thread per device asks its radio for samples (ZMQ REQ) and pushes them into the device's
-- ring. A server thread per device answers the radio's requests (ZMQ REP): for each link into the
-- device it keeps a read cursor on the source's ring, waits until every link has a common window,
-- reads it, and hands the windows to the channel processor. The pullers and servers share the rings,
-- the links' cursors, the counters and the stop flag. A control server answers JSON requests on a
-- thread of its own and writes the links' control blocks; the server threads take what was written at
-- the start of a slot, by a snap.
--
-- Files and the code they model (paths from the repository's root):
--   Ring            src/ring.cpp, include/ocudu_gpu_channel/ring.h: IqRing; `blank` is a
--                   value-initialised sample, and samples have any type. Ring/Window, Ring/Bounds,
--                   Ring/Stream and Ring/Discard have the lemmas, Ring/Log the abstract log that a ring
--                   implements.
--   Broker/State    src/broker.cpp: the locals of the threads and what they share, as records.
--   Broker/Puller   run_puller, send_request, recv_samples_into.
--   Broker/Server   run_server, send_samples; process_superposition is a step that goes on or throws.
--   Broker/Run      Broker::run as a step relation: any thread may move next. Broker/Invariant and the
--                   Keeps modules have the invariant, Broker/Run/Delivery what follows from it.
--   Runtime         include/ocudu_gpu_channel/runtime_control.h: BrokerLinkControl and the snaps;
--                   Runtime/Snap has a link's snaps over many slots.
--   Telemetry       the same header's publish_telemetry_snapshot and read_telemetry_snapshot, as two
--                   threads that interleave between any two words.
--   Config          include/ocudu_gpu_channel/config.h and src/config.cpp: the topology, its lookups,
--                   validate_config (Config/Validate) and fold_link_leading_delays (Config/Fold, with
--                   delays that print alike in Fold/Clash).
--                   Config/Text has the text helpers and conversions of values, Config/Load the keys,
--                   Load/Reader the lines of each section, Load/Loop load_config_file. Reader/Pointers
--                   says when the parser's pointers are right; Loop/RoundTrip prints links as lines.
--   Populate        src/mutable_params.cpp: the initial parameters of a link from its model's chain.
--   Iq, Delay       include/ocudu_gpu_channel/iq.h and delay.h: samples, the sinc filters, the delay
--                   line of a tdl step, and fading (Delay/Fading). Delay/Slots has the filters over one
--                   stream, as the reference of the slots; Delay/Prepared is about the prepared state,
--                   Fading/Refused about a spectrum that is not implemented.
--   Latency         src/latency.cpp: the summary of measured latencies; std::ceil is a parameter.
--   Cpu             src/cpu_backend.cpp: a link's state and its preparation (with Cpu/Prepared); the
--                   chain (Cpu/Steps); apply_chain_to_link and process_superposition (Cpu/Apply), with the
--                   warm-up after a profile swap (Apply/Warmup), calls in either order (Apply/Concurrent)
--                   and a call as the sum of its edges (Apply/Superposition).
--   Support         src/processing.cpp: the support checks and the choice of the processor;
--                   Support/Chains and Support/Folded are about the CUDA check, Support/Spectrum about the
--                   CPU backend.
--   Control/Reader  src/control_server.cpp: JsonReader and json_escape. Its fuel is twice the text's
--                   length and two: each round of a loop reads a character, and so do most calls.
--   Control/Json, Params, State
--                   JsonValue and its accessors; the whitelist and apply_update; ControlServer's
--                   state, with the links' pointers as indices into a store of control blocks.
--   Control/Checks, Handlers
--                   the validation of a request, in the order of the code's tests, and the handlers;
--                   Checks/Good, Checks/Swap, Invariant and Handlers/* have what they keep, and
--                   Control/Server what follows for a server from its start.
--   Common          lists, maps, results, 64-bit words and Boolean tests that the parts share.
--
-- A step of a thread is one section under a ring's lock, one atomic operation or one ZMQ call, since
-- other threads can move between those. What a ZMQ call returns, and whether the channel processor throws, is an
-- input of the step, free in the theorems. `size_t` and `uint64_t` sums are taken modulo 2^64.
-- The pullers' steps stay below 2^64 samples per device and 2^60 samples per message, and the queues
-- below 2^60 samples: at 10^9 samples a second a counter takes over 500 years to wrap.
--
-- `double` and `float` are the records of Common/Arithmetic, of which nothing is assumed, except where
-- a theorem names a law; the generators and std::hash are the record Random of Cpu. The reader works
-- on characters: all its tests are about ASCII, so the bytes of another character pass as it does. The
-- text of replies is data (Reply, Reason), and log lines are left out. The hints for the warm-up span
-- are used where they are positive only, so they are natural numbers. Between threads the model is
-- sequentially consistent.
--
-- An exception in the CPU backend ends the server thread that called: a step of the server, whose
-- outcome is free in the theorems, and the processor's state at the exception is left out. A map is a
-- list that is visited in the order of insertion, where std::map goes by key; for validate_config only
-- the order of the errors differs. A file is read line by line, as std::getline does; std::stod is a parameter. A model's id is
-- the name that it has in the map.
--
-- Not modelled: clock readings, sleeps and log lines, the sockets' set-up, CUDA kernels, the
-- hardware probe and the memory estimate of src/backend.cpp, and the applications' argument parsing.
pub mod Common
pub mod Ring
pub mod Broker
pub mod Runtime
pub mod Telemetry
pub mod Config
pub mod Populate
pub mod Iq
pub mod Latency
pub mod Delay
pub mod Cpu
pub mod Support
pub mod Control
