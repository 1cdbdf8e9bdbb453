-- ===== src/Lib.antt =====
-- stabsight measures the quality of a connection: a scheduler runs probes beside one another, stops
-- them for a speedtest, and their results go to OpenTelemetry and to a diagnostic engine.
--
-- The parts, and the files that model them:
--   Base            bytes as texts, signed integers and their wrap-around, the float64 interface,
--                   lists; Numerals (strconv.Itoa, Atoi) and Address (net.JoinHostPort,
--                   SplitHostPort) are the documented behaviour of the standard library
--   Scheduler       internal/scheduler. Registry is the registration of workers (RegisterWorker,
--                   RegisterWorkers) with Start and Stop as they stand to it, and
--                   Registry/Refinement what it promises; Worker is the Start loop of the probes
--                   with its two channels; Exclusive is Start, PauseAll, ResumeAll,
--                   ExecuteExclusive and Stop beside the goroutines of the workers, as a relation of
--                   steps: one step is one channel operation or one section under the mutex, and a
--                   run is any list of steps. Exclusive/Orderly and Exclusive/Progress are about the
--                   runs that no context cuts off, Exclusive/Attempts about the calls that fail,
--                   Exclusive/Drain about the workers that Stop waits for, Exclusive/Restart about a
--                   second Start. Callers is the same system with the speedtests as the callers of
--                   ExecuteExclusive: exclusiveMu, who waits for it and who holds it, and the loop
--                   of a speedtest that goes on when its call has returned; each of its events is a
--                   list of steps of Exclusive (Callers/Refinement).
--   Probes          internal/probes. One file per probe (its constructor, its worker, its check),
--                   Jitter, Check for what the checks share, Trace for the traceroute, Socket for
--                   Ping and pingHop up to the replies, Address for the addresses that they dial,
--                   Speedtest with the runner that it uses, Clients for the checks over the clients
--                   that the program gives them (Dial, Resolve, Do, Ping and Trace).
--   Diagnostic      internal/diagnostic. Analyze and the functions that it is made of.
--   Config          internal/config. Types, Validate, and Load with what Viper and YAML return.
--   Logging         internal/logging. ParseLevel, New, Init and Get.
--   Telemetry       internal/telemetry. Metrics (instruments and samples), Provider, Otlp, Server,
--                   and the shutdowns.
--   Cli             internal/cli. App is the run command and RunApp with what it opens and closes,
--                   Registration and Wiring what RunApp hands from one part to another,
--                   Exclusion the registered workers under the scheduler, Command the flags and
--                   the version.
--
-- The probes implement the ProbeWorker interface of the scheduler; RunApp builds them from the
-- configuration, registers them, and gives the MTR probes a callback into the diagnostic engine.
--
-- What a record or a function leaves out is said above it. Outside the model are the network, the
-- DNS, HTTP and speedtest clients, Viper, YAML, zerolog, cobra and OpenTelemetry: a definition takes
-- what they return. Floats are an interface, Float64, with no law of its own; Base/Decimal is a
-- value of it for tests. Durations and Go's int are integers without a bound, except where the
-- program multiplies two of them, in the deadline of a traceroute, which wraps around at 64 bits.
-- The texts that are folded, trimmed or compared are ASCII. Loops are structural: over a list, or
-- over the hops that are left; only the printing of a number has fuel, one more than the number.
-- The largest capacity for which the make of Trace does not panic is a parameter of it.
-- Not modelled are the goroutine that serves the metrics, and the accessors that hand out an object
-- of a library (MeterProvider, Reader).
pub mod Base
pub mod Scheduler
pub mod Telemetry
pub mod Config
pub mod Logging
pub mod Probes
pub mod Diagnostic
pub mod Cli
