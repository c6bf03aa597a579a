-- ===== src/Lib.antt =====
-- The Go core of Caelo: what carries a machine's traffic through an AmneziaWG tunnel, reads its
-- configuration, measures it, logs it, and serves it to the application.
--
-- How the parts hang together. A request reaches the service (core/cmd/caelo-service), which
-- stays while somebody is connected or a tunnel is up. It drives the Controller of
-- core/internal/systunnel. Start reads a configuration (core/internal/awg) into the text that the
-- device takes, takes a snapshot of the machine's routing and DNS and changes them
-- (core/internal/system), waits for the server's answer (core/internal/handshake), and puts a
-- meter on the packets (core/internal/rtt). All of them write to core/internal/diag. An application
-- without privileges has core/internal/tunnel in its own process, and core/internal/probe tries a
-- configuration out; core/internal/release checks an update. examples/subscription-server hands out
-- the configurations.
--
-- The files:
--   Base              results, lists, texts, maps, Go's decimal, base64 and hex, and calls that act
--                     on the world and may fail (Effect)
--   Tcp               core/internal/rtt/rtt.go, parseTCP. Tcp/Total, Tcp/Headers: its theorems
--   Rtt               core/internal/rtt/rtt.go, Meter: the record `Meter`, and Latency, Forget,
--                     Milliseconds, Outbound, Inbound, expireLocked under their names in lower case.
--                     Rtt/Device is the type Device. Rtt/Bounds, Rtt/Latency, Rtt/Karn: theorems
--   Diag              core/internal/diag/log.go: `Ring` is the package's variables. Diag/Redact: redact;
--                     Diag/Recent, Diag/Overflow, Diag/Matched, Diag/Hidden, Diag/Leak: theorems
--   Idler             core/cmd/caelo-service/main.go: idler, its watcher and the accept loop, as the
--                     step relation `Step` on `Service`. Idler/Exit, Idler/Resident, Idler/Race: theorems
--   System            core/internal/system/network_linux.go. System/Commands: the command lines;
--                     System/Routes: what is known of the commands; System/Kept, System/Rollback:
--                     theorems. System/Darwin: core/internal/system/network_darwin.go;
--                     System/Darwin/Removed: what is known of its commands; System/Darwin/Undone: theorems.
--                     System/Windows: core/internal/system/network_windows.go;
--                     System/Windows/Routing: what is known of its routes;
--                     System/Windows/Chosen, System/Windows/Undone: theorems
--   Awg               core/internal/awg/config.go. Awg/Conf: ParseConfig; Awg/Uapi: IPC; Awg/Endpoint:
--                     core/internal/awg/endpoint.go, Config; the other children: theorems
--   Handshake         core/internal/handshake/handshake.go
--   Systunnel         core/internal/systunnel/controller.go: Start, Stop, Status and EndpointAddress, and the
--                     choice of the reader by core/internal/awg/endpoint.go, Parse. Systunnel/Started,
--                     Systunnel/Sound, Systunnel/Calls: theorems
--   Ipc               core/internal/ipc/protocol.go, and serve, handle and fromStatus of
--                     core/cmd/caelo-service/main.go. Ipc/Answers: theorems
--   Fdtun             core/internal/fdtun/session.go and mtu.go. Fdtun/Live: theorems
--   Subscription      examples/subscription-server/main.go: reload and the types of its file.
--                     Subscription/Http: what it uses of net/http and time; Subscription/Serve: serve
--                     and the two documents; Subscription/State: serveState and route;
--                     Subscription/Loaded, Subscription/Answers, Subscription/Refused,
--                     Subscription/Version, Subscription/Changed: theorems
--   Release           core/internal/release/verify.go. Release/Keys, Release/Checked: theorems
--   Userspace         what the next two call outside themselves, and what is known of it;
--                     Userspace/Sandbox: one that can be evaluated
--   Probe             core/internal/probe/probe.go: Run, fetch, measureLatency. Probe/Exit: timeExit;
--                     Probe/Clock: core/internal/probe/handshake.go; Probe/Kept, Probe/Whole,
--                     Probe/Closed, Probe/Paired: theorems
--   Tunnel            core/internal/tunnel/session.go. Tunnel/Steps: its calls in any interleaving;
--                     Tunnel/Kept, Tunnel/Replaced, Tunnel/Owned: theorems
--   Answer            core/libcaelo/libcaelo.go: success, failure and marshal, and what is answered;
--                     core/internal/version: AmneziaWG
--   Libcaelo          core/libcaelo/libcaelo.go, the C interface: each exported function under its
--                     name, and `call` for any of them.
--                     Libcaelo/Reads: what is known of encoding/json; Libcaelo/Verified,
--                     Libcaelo/Told, Libcaelo/Alone, Libcaelo/Logged, Libcaelo/Verbose,
--                     Libcaelo/Flooded: theorems; Libcaelo/Sandbox: an outside to evaluate it in
--   Service           core/cmd/caelo-service: listen_linux.go, platform_linux.go, and shutdown, serve and
--                     describe of main.go. Service/Descriptors: what is known of descriptors;
--                     Service/Handover, Service/Ended: theorems. Service/Scm: service_windows.go;
--                     Service/Scm/Closed, Service/Scm/Stopped: theorems
--   Cli               core/cmd/caelo-tun/main.go and core/cmd/caelo-probe/main.go, from run on. Cli/Ended,
--                     Cli/Silent: theorems
--   */Tests           concrete runs, and each theorem at one of them
--
-- How the code is written here. A Go error is a value (`Result`, `Effect`); a run-time panic for an
-- index out of range is the error `out_of_range`, so that its absence is a theorem. A time is a
-- number of nanoseconds (in Subscription, seconds since 1970 and nanoseconds), and a duration a
-- difference that stops at 0: the code compares durations only with bounds of at least 0. A mutex that
-- a method holds from end to end makes it one step, and the two of diag.Verbosef are one step too. A
-- map is an association list without repeated keys. A text is a list of code points; strings.ToLower folds ASCII and the two other letters whose
-- lower case is ASCII, since only ASCII words are compared with its result.
--
-- Bounds. parseTCP, the meter, the log and the readers are structural and need no fuel. Only
-- handshake.Wait loops without a bound of its own: `wait` takes a number of rounds, and the timeout
-- divided by the sleep between two rounds, and two more, are enough.
--
-- Parameters. `Netip` (net/netip), `Mac` (the commands of macOS), `Host` (the commands ip and resolvectl, /etc/resolv.conf),
-- `Routing` (what ip-route(8) says of the IPv4 routes), `Machine` (the tun device, the AmneziaWG
-- device, the resolver, the clock, and encoding/json), `Phone` (the same for a device that the
-- host platform opened), `IpHelper` (the IP Helper API of Windows and net/netip), `Userspace` (netstack, the device over it,
-- net/http; the log of core/internal/diag is part of its world), `Outside` (what libcaelo.go calls
-- beside the core), `Unix` (sockets and descriptors), `Manager` (the service manager of Windows),
-- `Ed25519`,
-- and, for the subscription server, the JSON codec and SHA-256.
--
-- The idler's `fire` sends on the channel while it holds the mutex. Here the other goroutines go on
-- while it waits for room, which only adds orders of events. A served connection counts until `idle`:
-- that its socket is closed just before is not looked at.
--
-- Not modelled: the named pipe of Windows (core/cmd/caelo-service/listen_windows.go), which is one call;
-- a signal that ends caelo-tun in the middle of Start or of its last Stop;
-- caelo_free, which gives memory back; the main functions, which read flags and put the parts
-- together; the application (Dart) and its platform hosts; tests.
pub mod Base
pub mod Tcp
pub mod Rtt
pub mod Diag
pub mod Idler
pub mod System
pub mod Awg
pub mod Handshake
pub mod Systunnel
pub mod Ipc
pub mod Fdtun
pub mod Subscription
pub mod Release
pub mod Userspace
pub mod Probe
pub mod Tunnel
pub mod Answer
pub mod Libcaelo
pub mod Service
pub mod Cli
