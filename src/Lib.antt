-- ===== src/Lib.antt =====
-- A verification of RainScanner (module `cdnscan`), which finds reachable "clean" addresses of CDNs: it
-- expands the address ranges of a target into candidates, filters them by a TCP connection, confirms them by
-- real requests through xray-core and writes the survivors to a result file, by a command line or a local web
-- server.
--
-- The parts and the files that model them:
--
-- IpRange (internal/iprange/iprange.go). Addr: netip.Addr and netip.Prefix as machine words, ipToU32, u32ToIP,
-- addr16. Family: ParseFamily, String, Allows, the Strategy. Walk: expandPrefix4, the strided walk, on as many
-- rounds as the block has hosts, which are enough because each round moves by one or more (Walk.Steps).
-- Sample: expandPrefix6, randomIn6, maskBits; the draws are bounded by the code's own budget of four times the
-- limit. Entries: Filter, Split, Sort, entryAddr. Expand: Expand with its guard against oversized pools, its
-- map of seen addresses and its reservoir. math/rand is a stream of numbers, and netip's two parsers are the
-- interface Netip, which the other parts take as well.
--
-- Link (internal/link/link.go). Outbound: the record, applyDefaults, validate. Codec: what the code takes from
-- net/url, encoding/base64 and encoding/json. Parse: Parse and the three parsers. Substitute: Substitute and
-- its two helpers.
--
-- Xray (internal/xray). Stream and Config: config.go, `map[string]any` as a JSON value (Base.Json) and
-- json.Marshal as a parameter; Config.Servers and Config.Wires: what an outbound dials, and how a batch is
-- joined. Itoa: the hand-written itoa of prober.go, and that of internal/scan/tcp.go; each round takes a byte
-- of the buffer, so the buffer is the bound. Options: NewProber. Probe: probeEndpoint and median, the replies
-- of the network as a stream; the loop has Probes rounds. Batch: TestBatch and freePorts. Wait: waitPort and
-- the status rule of probeOnce; a round takes the 50 milliseconds of its sleep or more, so the rounds that fit
-- into the timeout and two more are enough. Resolve: FindBinary and Resolve. Embedded: embedded.go, the
-- extraction of the archive's binary on a file system whose calls may fail.
--
-- Providers (internal/providers/providers.go). Names: SafeRangeName. Manifest: the manifest and its look-ups.
-- Normalize: normalizeCIDRs. Fetch: the sources of ranges, over the interface Feed for HTTP, JSON and the
-- searching regular expressions.
--
-- Storage (internal/storage/storage.go): the interface Store with its laws. Storage.Files is FileStore over a
-- directory of named texts (Storage.Disk); a write succeeds, is refused, or fails after it emptied the file
-- and leaves some other text in it. Targets (internal/targets/targets.go) takes a Store: each operation is one
-- step, since a mutex guards it, that gives its result, the registry and the state of the store. Lookup,
-- Upsert, Remove, Customs, Synced and Reload are its operations and their laws.
--
-- The mutex covers the two halves of Reload and not the fetch between them; Reload.Races is about a Delete
-- that comes in between.
--
-- Scan (internal/scan). Pool: Run of tcp.go as a step relation of its launching loop, its goroutines, the
-- consumer of its channel and a cancellation, in every interleaving, and the network that dial names; which
-- hosts accept a connection is a parameter. Interfaces: family.go.
--
-- Pipeline (internal/pipeline/pipeline.go): Run, runOne, the stages and the batches; the goroutines of a stage
-- append in the order in which they are started, and cancellation and logging are left out there; the write of
-- the result file is a parameter that may fail. Survivors relates the passes of stage1 to the sweeps of
-- Scan.Pool, whose goroutines append in any order; Batches has the goroutines of stage2 in every interleaving,
-- and Progress the progress events. Output (internal/output/output.go): order, text and name of a result file.
--
-- App (internal/app/service.go): buildConfig, with durations that wrap around as an int64 does. App.Service:
-- New, RefreshManifest and ReloadAll over the registry; the manifest that package providers holds is a field
-- of the service.
--
-- Web (internal/web/server.go): Jobs has the event buffer, the streaming handler as a step relation over all
-- interleavings with the pushes, and the retention of jobs; Requests has the guards, the checks of handleScan
-- and buildResult. Protocol: requests, replies and the routing table. Handlers: the routing of Serve behind
-- its Host check and the handlers of the API, as functions of a request and the server, over the service of
-- App.Service. Lifecycle: the server and the goroutines that handleScan starts, as a step relation whose
-- requests are those of Handlers.
--
-- Cli (cmd/cdnscan/main.go): the choice of the command, selectCDNs, guiURL, the concurrency and the loop over
-- the CDNs; Ports: parsePorts; Bar: renderBar; Status: statusBar and the terminal; Updater: runUpdater over a
-- Store.
--
-- Base holds the shared names: lists measured by native numbers, Go's `int` as a signed integer ℤ, texts as
-- lists of ASCII codes with Go's string functions, decimal numbers, `(T, error)` as Result, JSON values and a
-- stable sort. Examples holds concrete parsers, links and stores for the witnesses, which stand in the Tests
-- modules. Go's int is not bounded where the code does not come near its bound; uint32 and uint64 are written
-- out modulo 2^32 and 2^64, and the durations of a scan request wrap around as int64 (Base.Ints).
--
-- Not modelled: dialling, HTTP requests and processes, whose answers are arguments; the page and the static
-- files; the times in the status bar, terminal colours and process priorities.
pub mod Base
pub mod Examples
pub mod IpRange
pub mod Link
pub mod Xray
pub mod Providers
pub mod Scan
pub mod Storage
pub mod Targets
pub mod Output
pub mod Web
pub mod App
pub mod Cli
pub mod Pipeline
