-- ===== src/Lib.antt =====
-- A model of center_agent: the XrayR node service, and the center and the agent that manage it.
--
-- Parts of the program, and the files that model them:
-- * The limiter (common/limiter) is shared by the connections of a node and by its controller: a
--   connection asks it for admission and a speed bucket (GetUserBucket), the controller adds,
--   updates and deletes inbounds and takes the devices that are online. Limiter.antt has the table
--   of inbounds and one function per operation; Limiter/Rate is determineRate. Limiter/Libraries
--   has what is used of the token buckets and of the shared cache.
-- * The dispatcher (app/mydispatcher) takes every connection of a node's inbounds. Dispatcher/Types
--   has destinations, what sniffers find, and shouldOverride, Reader cachedReader, Sniffer
--   sniffer.go, fakednssniffer.go and the function sniffer, Links getLink with the writers of
--   stats.go and common/limiter/rate.go, Routes routedDispatch, and Dispatches Dispatch and
--   DispatchLink. It asks the limiter for admission and the rule manager about the destination.
-- * The rule manager (common/rule/rule.go) is Rule.antt: UpdateRule, Detect, GetDetectResult.
-- * The controller (service/controller) is Controller.antt and the files below it. Users builds
--   Xray's users (userbuilder.go), Node makes the calls of Xray (control.go and the tag functions
--   of controller.go), Compare is compareUserList, Monitor is nodeInfoMonitor and Traffic is
--   userInfoMonitor with getTraffic, resetTraffic and limitUser. The rounds use the limiter and the
--   rule manager as the code does.
-- * The client of SSPanel (api/sspanel/sspanel.go) fetches what the controller works with.
--   Panel/Common has what panel clients share, Panel/Sspanel/Versions compareVersion, Readers the
--   patterns and the options of a server's text, Nodes the parsers of nodes, Requests GetNodeInfo,
--   GetUserList, GetNodeRule and two of the reports, Users ParseUserListResponse; Tags and
--   RoundTrip have theorems.
-- * Api.antt has the types that the panel clients and the controller exchange (api/apimodel.go).
-- * The agent (xrayr-agent/internal) runs the center's commands on its machine. Agent/Commands is
--   the white list, STATUS_XRAYR and RESTART_XRAYR, and Agent/Apply is RunApplyConfig
--   (cmdexec/exec.go), both over the operating system of Agent/Os. Agent/Install is
--   xrayr_install_upgrade.go: Checks has the payload, the names and the white lists of paths, Host
--   the download of capi/client.go and what sudo does, Files the backups and rollbacks, and Run the
--   body of runXrayrInstallUpgrade in the monad of Tasks, where a body may report and return.
--   Keeps, Writes, Frame and Untouched prove which files a run changes, Turns, Undo, Stages and
--   Reports how it ends.
-- * The center (xrayr-center/internal) checks every agent's request. Center/Sign is hsign/hsign.go,
--   Center/Nonces is noncecache/noncecache.go, and Center/Auth is requireAgentHMAC of
--   httpapi/server.go with the request that the agent's capi/client.go signs. Center/Hub is
--   agent_hub.go, the open sockets, and Center/Commands the queue of commands of
--   handlers_phase2.go: Rows has the tables as lists, Queue enqueueCommand and
--   flushPendingCommands, Reports what agents report, Deploys applyConfigDeployFlow, and Steps the
--   relation of these operations. Exclusion, Permissions, Crossing, Races and Flush have theorems.
--   Center/Register is agentRegister of handlers_rest.go, which gives an agent the key that it
--   signs with. The agent executes what the queue pushes and reports to it.
-- * Prelude has the shared helpers: maps as association lists in place of Go's maps and sync.Map,
--   text as lists of bytes, 64-bit integers with their wrap-around.
--
-- A sync.Map and a map are association lists, whose order stands for the order of a Range. A call
-- is a function from the state to the state, and a goroutine is run to its end; calls of one lock
-- or one map are taken one after another. So are the center's calls, each whole, although the code
-- has no transaction or lock around enqueueCommand's checks and its insert; Center/Commands/Races
-- takes the two steps apart. What is not under the repository (Xray's managers, pipes, sniffers and
-- router, the rate limiter, the cache, the compiler of regular expressions, sets, cryptographic
-- hashes, the machine, the network) is a parameter. What a library answers is an argument, and what
-- the code sends is a result. A float64 is a type with the two functions that the code has of a
-- speed. Only compareVersion needs fuel: a round takes at least one character of a version, so one
-- round more than the two have characters is enough, and running out is a result that the theorem
-- on it excludes. Every other loop runs over a list, or counts its attempts down from the code's
-- own bound.
--
-- Not modelled: the reports of SSPanel's client that only send, the agent's discovery and main
-- loop, the center's other handlers, the other panel clients, the inbound builder, certificates and
-- start-up. They are mostly SQL, JSON, HTTP and calls of Xray. The texts of messages and errors are
-- left out; errors are values. Logging is left out.
pub mod Prelude
pub mod Api
pub mod Limiter
pub mod Rule
pub mod Controller
pub mod Agent
pub mod Center
pub mod Dispatcher
pub mod Panel
