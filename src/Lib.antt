-- ===== src/Lib.antt =====
-- redborder-monitor: a daemon that queries sensors (SNMP agents, plugins, shell commands), computes
-- formulas over their values and sends metrics to the terminal, to Kafka and to an HTTP server.
--
-- How the parts interact: a worker runs `ProcessSensor` on a sensor. It queries the monitors beside
-- each other, then goes through them in order: raw output becomes a state of values, formulas are
-- evaluated over the states found so far, each new state is compared with the cached one and sent
-- as metrics, and the end of the cycle settles the sensor's priority and statistics. The producer
-- takes the metrics from the channel to its outputs; for HTTP a batcher gathers them.
--
-- Which file models which code (paths from the repository's root, Go functions in brackets):
--   Model        internal/monitor/config.go: Conf, Monitor, Sensor, Config as records, decoded JSON
--   Comments     internal/monitor/config.go [StripComments]
--   Loading      internal/monitor/config.go [parseRawInt, the UnmarshalJSON methods, LoadConfig]
--   Tokenizer, Evaluator   internal/monitor/evaluator.go [tokenize, shuntingYard, evaluateRPN,
--                EvaluateExpression, ExtractVariables]
--   Values       internal/monitor/processor.go [parseRawOutput, parseRawOutputWithValue]
--   Op           internal/monitor/processor.go [processOpMonitor, ParseGroupID]
--   Output       internal/monitor/processor.go [outputMetrics, Metric.MarshalJSON]; the channel is a
--                list
--   Sensor       internal/monitor/processor.go [SafeSensor and its methods, the end of ProcessSensor]
--   Query        internal/monitor/processor.go [processSNMPMonitor, processPluginMonitor,
--                processSystemMonitor, and the queries of ProcessSensor in any order of their ends]
--   Semaphore    internal/monitor/processor.go [the goroutines of ProcessSensor as a step relation]
--   Cycle        internal/monitor/processor.go [ProcessSensor]
--   Stats        internal/monitor/stats.go [GetStats, ResetStats]
--   Rate         internal/monitor/rate.go [counterRate, swapCounterSample, SNMPRatePlugin]
--   Params       internal/monitor/plugins.go [getStringParam, getFloatParam, getIntParam]
--   Snmp         internal/monitor/snmp.go [TranslateOID, isValidNumericOID, setupSNMPParams, getSNMPPDU,
--                decodeSNMPPDU, decodeSNMPCounter, SolveSNMPQuery, SolveSNMPCounter, SolveSNMPWalk]
--   Plugins      internal/monitor/plugins.go [PluginsRegistry, PingPlugin, SNMPPlugin, SNMPWalkPlugin,
--                GovcPlugin, getVMwareClient, govcPluginInternal, RedfishPlugin, IpmiPlugin],
--                internal/monitor/system.go [SolveSystemCommand]
--   Ipc          internal/monitor/ipc.go [DefaultSocketPath, ParseIPCAddress, handleIPCConnection]
--   Log          internal/monitor/log.go [LogMsg]
--   Process      cmd/redborder-monitor/main.go [main, startIPC, reloadConfig, outside the queues]
--   Worker       cmd/redborder-monitor/main.go [main, the turns of the workers over the two queues]
--   Reload       cmd/redborder-monitor/main.go [main, reloadConfig, for the sensors]; the objects that
--                the old and the new list share live in a store
--   Schedule     cmd/redborder-monitor/main.go [main, a round of the scheduler]
--   Batcher      internal/monitor/producer.go [startHTTPBatcher, sendHTTPBatch, Produce for HTTP]
--   Producer     internal/monitor/producer.go [NewMetricProducer, UpdateConfig, Close, Produce,
--                sendHTTP], cmd/redborder-monitor/main.go [main, the loop over the metrics]
--   Base         Go's strings, maps, integers and results; `Base.Float` is the interface of doubles
--
-- Conventions. Doubles are a type with operations (`Float`), a parameter of every part that computes
-- with them, with the one law that a theorem needs in `FloatLaws`; the examples run over a stand-in
-- of integers. Texts are lists of bytes. Maps are association lists. Nil pointers are `none`. `int`
-- and `int64` are unbounded signed numbers where the code only copies and compares them; time-outs in
-- nanoseconds wrap as `int64`, the counters of a sensor and of the outputs wrap at 2 ^ 32 and 2 ^ 64,
-- those of the batcher do not, and the counters of an SNMP agent are reduced as uint64. The cache of
-- VMware sessions is shared: what other goroutines make of it is an argument.
-- Clocks, queries, posts and the order in which concurrent queries end are arguments, so that each
-- theorem is about all of them.
--
-- Bounds and fuel. The tokenizer, `split` and `strip_comments` run on fuel of the length of their
-- text, plus one where the end takes a round, since each round takes at least one byte; numerals run
-- on fuel of the number plus one. `tokenize_total` and `strip_comments-scan` hold for every text, so
-- no text runs out of it.
--
-- Not modelled: the timing of the scheduler, the flags and the client commands in
-- cmd/redborder-monitor/main.go, InitMIBs in snmp.go, accepting connections in ipc.go, the runtime's figures
-- in stats.go, and the information texts. They are output, I/O or third-party loading. Kafka,
-- HTTP, gosnmp, gomib, govmomi, the pinger, IPMI and encoding/json are arguments: what they
-- answer is given by `SnmpClient`, `MibEngine`, `PduReader`, `Vsphere`, `Pinger`, `RestServer`,
-- `IpmiClient` and `JsonDecoder`. Upper and lower case, white space and quoting are those of
-- ASCII text.
pub mod Base
pub mod Model
pub mod Values
pub mod Worker
pub mod Tokenizer
pub mod Loading
pub mod Evaluator
pub mod Op
pub mod Output
pub mod Sensor
pub mod Query
pub mod Cycle
pub mod Params
pub mod Plugins
pub mod Rate
pub mod Batcher
pub mod Ipc
pub mod Log
pub mod Process
pub mod Producer
pub mod Comments
pub mod Reload
pub mod Stats
pub mod Schedule
pub mod Semaphore
pub mod Snmp
