-- ===== src/Lib.antt =====
-- A model of the CSI driver for T Cloud Public block storage (EVS), and what is proved of it.
--
-- The driver is a gRPC server. Its controller service (internal/driver/controller.go) checks each
-- request and calls a client of the cloud (internal/evs), which sends requests with the SDK, polls
-- jobs and states under a timeout, and maps each failure to one error of its own; the controller maps
-- that to a gRPC code. The models follow this division.
--
-- Common, Text and Path hold what the parts share: lists, association lists for string maps, signed
-- integers and the wrap-around of 64 bits, `strings.TrimSpace`, `ToLower` and `CutPrefix`, and
-- `filepath.Clean`. Eff is the action type: from a state to a value or an error, with the state after
-- it. Errors is the list of causes that `errors.Is` and `errors.As` find in an error; texts of
-- messages are left out, but where the code redacts them.
--
-- Evs models internal/evs. Evs.Cloud is its boundary: the record `Cloud` answers each request of the
-- SDK, and each reading of `ctx.Err()`, as a function of the history of the calls before it. So it is
-- any cloud at all, with other clients in it, and it is a parameter of every operation and every
-- theorem. One period of a ticker is a call of the history, so time is the number of these.
--   Evs.Classify     client.go: `classifyErrorKind`, `classifyError`
--   Evs.Volume       volume.go: `CreateVolume`, `GetVolume`, `waitForJobSuccess`, the conversions
--   Evs.Listing      volume.go: `ListVolumes`, `DiscoverVolume`, `isAdoptable`
--   Evs.Delete       volume.go: `DeleteVolume`, `waitForVolumeAbsence`
--   Evs.Attachment   attachment.go: `AttachVolume`, `DetachVolume`, their waits and reconciliations
--   Evs.Sanitize     client.go: the text of `sanitizeError`
--   Evs.Transport    transport.go: the round trippers, `withRequestContext`, `checkRedirect`, and of
--                    client.go `NewProviderClient`, over the records `Network` and `Sdk`
--   Evs.Client       volume.go: `NewClient`, `NewClientFromProvider`, and `v3`, `v2` and `ecs`
-- Their child modules hold the proofs, named for what they prove. Equal identifiers in one listing
-- are sorted stably here, where `slices.SortFunc` promises no order.
--
-- Host and Mount model internal/mount/mount.go. Host is its boundary, as Evs.Cloud is for the client: the
-- record `Host` answers each command, each look at a path or the mount table and each reading of the
-- context as a function of the history of the calls, so it is any host.
--   Mount             the options, arguments and paths that no call of the host is part of
--   Mount.Device      `DiscoverDevice`, `serialLinks`
--   Mount.Filesystem  `GetFilesystemType`, `format`, `checkFilesystem`
--   Mount.Operations  `FormatAndMount`, `Mount`, `Unmount`, `IsMountPoint`, `GetMountSource`
-- Its other child modules hold the proofs. Those read the commands that make a filesystem off the history,
-- and Mount.Made follows where one of them comes from through every way to build an action.
-- A volume identifier is taken to have one byte for each character.
--
-- Driver models internal/driver/controller.go and node.go.
--   Driver.Csi         the messages and the gRPC codes
--   Driver.Capability  `validateVolumeCapability`, `validateParameters`, and of internal/mount/mount.go
--                      `IsSupportedFilesystemType`
--   Driver.Capacity    `resolveSizeGiB`, `limitSizeGiB`, on 64-bit integers
--   Driver.Request     `pickAvailabilityZone`, `isDeviceNodePath`, `toGRPCError`,
--                      `formatCreateVolumeResponse`
--   Driver.Controller  the handlers, over the record `EvsClient` for the interface `EVSClient`;
--                      its child Wiring fills that record with the operations of Evs
--   Driver.Identity    identity.go: the Identity service
--   Driver.Services    the capabilities of the other services, and `NewNodeService`
--   Driver.Node        the handlers, over the records `Mounter` and `Files`; its child Wiring fills the
--                      first with the operations of Mount, and its children Staging, Remounts and Quiet
--                      are about the two together
--
-- Loops: a loop over a list is a recursion over it; the loop over pages has its 51 rounds and the
-- wait for a volume's absence its 60 attempts; the polling loops without a bound of their own run on
-- fuel of 602 rounds, which is one for each second of the ten minutes of an operation and two more.
-- Evs.Cloud.Polling compares them with the loops without fuel, for clouds whose timeouts end.
--
-- Examples holds the tests: a concrete cloud and host, volumes and requests.
--
-- Config models internal/config/config.go: `Parse` from the parsed flags, `Validate`, `resolveEndpoint`,
-- `resolveNodeFacts`. `flag`, `url.Parse`, the environment and the metadata request are parameters.
-- Config.Metadata models that request, metadata.go: `fetch` and `attempt`, over a parameter for the
-- service. Its loop runs on fuel of 121 rounds, one more than the 30 seconds have waits of 250 ms, the
-- shortest; Config.Metadata.Retries compares it with the loop without fuel.
--
-- Log models internal/log/logger.go. A text is there the list of its code points, where the source
-- walks bytes: all that it compares with are bytes of ASCII.
--   Log.Redact  `RedactString`, `maskKeyValues`, `valueBounds`, `startsName`
--   Log.Level   `ParseLevel`, `IsSensitiveKey`
--   Log.Attr    `redactValue`, `RedactAttr`, and `SanitizingHandler` over any handler
-- A text is edited in two parts, what is done and what is left; the loops that look for a key or a
-- secret run on fuel of one round more than the text has bytes, since every round goes forward.
-- Log.Edited relates a text to what is left of it
-- when parts are cut, Log.Clean and Log.Absent say what such a text does not have.
--
-- Process models cmd/t-cloud-csi-driver. Its boundary is the record `System`: the flags, the
-- environment, the metadata service, and how the file system, the cloud and the server answer, as
-- functions of what the process has done.
--   Process        main.go: `run`, `registerServices`, `listen`, `clearStaleSocket`, the exit code
--   Process.Serve  main.go: `serve`, as a relation over the times at which its channels are ready
--   Process.Rpc    logging.go: the interceptor, with the handlers of Log
--
-- Not modelled: internal/version, which holds build metadata, and internal/mount/mounttest and test, which
-- are for tests. Left out as input and output or as the wiring of other libraries: net/http, the SDK, the
-- JSON handler of the logger, and the gRPC server, with the nil checks of constructors. Concurrent requests
-- are covered only in that a cloud or a host may change between any two calls.
pub mod Common
pub mod Text
pub mod Path
pub mod Eff
pub mod Errors
pub mod Evs
pub mod Host
pub mod Mount
pub mod Config
pub mod Driver
pub mod Examples
pub mod Log
pub mod Process
