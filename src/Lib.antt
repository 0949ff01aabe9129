-- ===== src/Lib.antt =====
-- OrbitStream: the satellite simulator, python-simulator/, which makes up telemetry for a swarm of
-- satellites, places them on real orbits, and posts it; the ingestion service, go-service/, which
-- takes the points and brings them to a database; and the chaos test, scripts/chaos_monkey.py, which
-- takes the database away for a while.
--
-- Parts, and where they are modelled:
--   * Tle: python-simulator/generators/tle_manager.py. `TleData` is TLEData; the dict `_tle_cache`
--     is a list of entries in insertion order (Base/Dict). Tle/Parse has the two loops over lines
--     that fill it (`parse_download` for _download_tle_data, `parse_cache` for _load_from_cache)
--     and the text that _save_to_cache writes (`render`); Tle/Find the lookup by name; Tle/Manager
--     the methods of TLEManager with the two files of the cache directory as a `Disk`;
--     Tle/Manager/Names get_real_satellite_names.
--   * Telemetry: python-simulator/generators/telemetry_gen.py. Telemetry/Generate has one action
--     for each method of TelemetryGenerator, on the object and the state of the random generators
--     (Telemetry/Action, Telemetry/Generate/State); a ValueError of numpy ends the action, and what
--     was written stays.
--   * Position: python-simulator/generators/position_calc.py. Position/Calculator has the methods
--     of PositionCalculator; a method that catches every exception and returns None is an Option.
--   * Simulation: python-simulator/satellite_sim.py and config.py. Simulation/Send has
--     send_telemetry and continuous_send, cut at their awaits; Simulation/Start the construction of
--     a swarm; Simulation/Launch all of `SatelliteSwarm.__init__`, with its two TLE managers on one
--     cache, and create_position_manager; Simulation/Schedule the interleavings of its coroutines
--     as a step relation, in which replies, exceptions of requests, cancellations and the end of
--     the run come in any order; Simulation/Main `main` from its arguments to the swarm
--     (Simulation/Main/Begin), its end, and the reports.
--   * Chaos: scripts/chaos_monkey.py, which stops the database of the service for a while and looks
--     whether its write-ahead log is empty afterwards (`run_chaos_test`, `kill_db`).
--   * Ingest: go-service/. Ingest/Breaker is db/circuit_breaker.go; Ingest/Wal db/wal.go, a file of
--     one JSON object on a line and its handle; Ingest/Batch db/batch.go, with a flush as a state
--     machine whose steps are its critical sections and its inserts (Ingest/Batch/Flush), and the
--     whole of it without other goroutines (Ingest/Batch/Run), and the pauses between its attempts
--     as 64-bit durations (Ingest/Batch/Backoff); Ingest/Monitor db/health_monitor.go;
--     Ingest/Handlers handlers/telemetry.go, with what the simulator and the chaos test make of the
--     answers; Ingest/System the running service of main.go, as a step relation between states that
--     have the buffer, all flushes, the breaker, the log, the monitor and the database; the last of
--     the flushes is the one that the loop of `Start` calls itself and waits for, the others are
--     those that `Add` started.
--     Ingest/Config is config/config.go and what main.go makes of a configuration, with
--     db/connection.go in Ingest/Config/Pool; Ingest/Start is main.go from a configuration to the
--     service, and Ingest/Shutdown main.go from the signal to the end of the process, with the two
--     loops that it stops, as a step relation around that of the service.
--   * Base: lists, integers, texts, decimal digits and dicts, as Python has them. Float: Python's
--     float. Tests: concrete inputs and the theorems at them.
--
-- A swarm asks a TLE manager for names and a position calculator, gives both to its generators, and
-- runs one coroutine for each satellite; these share the configuration, the statistics and the
-- random generators.
--
-- The service keeps a buffer, to which the handlers add; a full buffer and a ticker start flushes. A
-- flush inserts its batch, as long as the breaker lets it, and else writes it to the log, which the
-- monitor brings to the database when that is up again.
--
-- Parameters: Float is an interface with the laws of IEEE arithmetic that the proofs use, which hold
-- with NaN; Float/Cents shows that they can be met. The generators of random numbers (Rng),
-- Skyfield, and Docker with the service (Chaos) are records of the functions that the code calls.
-- The clock, the response of Celestrak, and whether a write succeeds are arguments of a call; so are
-- the results of pings and transactions, which may commit and still report an error, and what the
-- file system does to the log. `json.Marshal` and `json.Unmarshal` are a record of two functions
-- (Ingest.Wal.Json), of which is assumed that what was written is read back and has no newline
-- (`IsJson`), and, where a theorem says that nothing is lost, that every record can be written,
-- which fails only for numbers and times that no posted body has. A breaker or a log that is not
-- set is `none`. The jitter of a pause, `strconv.ParseFloat`, `time.ParseDuration`, pgxpool, the
-- largest capacity that `make` takes, the rows that the schema of the database takes
-- (Ingest.System.Drain.Goes), and Python's `int` are parameters too.
--
-- Bounds and fuel: texts are lists of code points, and upper() is that of ASCII letters; times are
-- microseconds; counts are natural numbers. The loop that fills up the list of names has `count`
-- rounds as fuel, which is enough since each appends a name. The digits of n have n as fuel. A flush
-- has two turns for each attempt, one for each point, and two more; the loop of a replay has a round
-- for each record as fuel, which is enough since a batch has one at least. Times of the breaker are
-- in any unit.
--
-- Not modelled: log messages, decoding errors of files, the parsing of command lines, the lengths of
-- pauses in the step relations; of go-service/ the first health check beside the loop of the
-- monitor, batches for which there is no memory, and the getters; SQL and dashboards.
pub mod Base
pub mod Float
pub mod Tle
pub mod Telemetry
pub mod Position
pub mod Simulation
pub mod Chaos
pub mod Ingest
pub mod Tests
