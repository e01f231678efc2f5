-- ===== src/Lib.antt =====
-- Verification of the Asserts trace processor (assertsprocessor/*.go), a processor of the
-- OpenTelemetry collector that enriches spans with attributes, samples error, slow and normal
-- traces under limits per service and request, and refreshes its configuration from a server.
--
-- The parts and their files:
--
-- - Base: names, lists, maps with text keys (Go maps and sync.Map, as lists in the order of
--   iteration), Go's int and int64, and code that can panic (`none` is a panic). Float: float64 by the
--   place of a value in the order of all values, and float64(n) / 1e9, rounded as Go rounds it.
-- - PriorityQueue (priority_queue.go): Item and the methods of PriorityQueue (Len, Less, Swap, Push,
--   Pop). PriorityQueue/Heap is container/heap of the standard library over these methods.
--   TraceQueue: NewTraceQueue, push, pushUnsafe, pop.
-- - ServiceQueues (service_queue.go): getRequestState, hasRoom and clearRequestStates, as functions and
--   in ServiceQueues/Threads as steps of goroutines. A traceSampler (sampler.go) is shared by pointer,
--   so it stands under an address in a heap.
-- - PeriodicSampling (periodic_sampler.go): sample, as a function and in PeriodicSampling/Race as
--   steps of two goroutines. Times are seconds in int64, with wrap-around.
-- - Span (the span functions of utils.go), Keys (keys.go, getServiceKey, buildEntityKey), Config
--   (config.go and getKey), Traces (trace.go, and convertToTraces and buildTrace of utils.go: a memory
--   gives the span at each address, and segments hold addresses), CustomAttribute
--   (custom_attribute.go), SpanEnrichment (span_enrichment.go), Thresholds (thresholds.go),
--   ConfigRefresh (config_refresh.go), Counters (the counters of metrics.go).
-- - Sampling (sampler.go): updateTrace and the loop of sampleTraces over spans; Sampling/Batch, its loop
--   over segments; Sampling/Normal, captureNormalSample; Sampling/Loop, captureNormalTraceSample and
--   sampleTraces; Sampling/Flush, one tick of startTraceFlusher. Traces, samplers and sampling states
--   are shared by pointer, so each of them stands under an address.
-- - Labels (applyPromConventions, getAttributesAsLabels, buildLabels and the label names of
--   registerLatencyHistogram) and MetricHelper (metric_helper.go). Processor (processor.go) composes
--   convertToTraces, enrichment, metrics and sampling as consumeTraces does. Listeners has the five
--   listeners that newProcessor (factory.go) gives to the refresh, and Listeners/Runs sequences of
--   batches and refreshes; Factory has newProcessor itself.
--   AssertsClient is asserts_client.go, with fetchConfig of config_refresh.go.
--
-- Outside code: the regexp engine, the texts of span kinds and status codes and the lower case of
-- characters are the parameter of Platform. Cache has the ttlcache package: its functions are
-- parameters, and two records of laws say what the theorems rely on. MetricHelper/Prometheus has the
-- registry and the histograms of the Prometheus client library in the same way (a histogram is made
-- when labels are observed first, and panics then unless its buckets increase and no label is "le"),
-- and AssertsClient the network and the encoders. A clock gives the time of each reading. An
-- attribute's value is given by its two renderings Str() and AsString(). A lock makes the
-- section under it one step. Where the source calls logger.Fatal, the process ends.
--
-- Fuel: `up` and `down` of PriorityQueue/Heap take the position and the bound as fuel; at fuel 0 the
-- source's own test ends the loop. bit_length of Float takes more bits than its argument has.
--
-- Not modelled: the timer loops, starting and stopping goroutines, logging, the HTTP server of the
-- metrics (metrics_exporter.go), the metrics that are deleted when a cache evicts a request
-- context, and the counters that an update of the metric helper makes anew. The slices of pointers
-- in Config are lists of values, so a null element of a fetched list, over which the source panics,
-- is not modelled; nor is a text that is not valid UTF-8. A nil map or slice is the empty one.
pub mod Base
pub mod Float
pub mod PriorityQueue
pub mod TraceQueue
pub mod Span
pub mod Platform
pub mod CustomAttribute
pub mod Config
pub mod Keys
pub mod SpanEnrichment
pub mod ServiceQueues
pub mod PeriodicSampling
pub mod Cache
pub mod Thresholds
pub mod Traces
pub mod Counters
pub mod Sampling
pub mod Labels
pub mod MetricHelper
pub mod Processor
pub mod ConfigRefresh
pub mod AssertsClient
pub mod Listeners
pub mod Factory
