-- ===== src/Lib.antt =====
-- The core of gwf, a Go web framework: the registry of services and the order in which they start
-- and end, the rate limiters, the name locks, the job scheduler, the subscriptions of a process, and
-- the small containers that these stand on.
--
-- How the parts interact. An app registers its services with gw/framework/core.go, directly or
-- through a factory; gw/framework/core_graph.go resolves what each declares (servicedep.go) into
-- edges to services registered before it. At boot the graph is sealed and its levels are walked from
-- the deepest to level 0; at shutdown they are walked the other way, with a barrier after each level.
-- Every service follows the lifecycle of gw/svc, and the in-memory limiter of gw/throttle is one.
--
-- Which file models which part:
--   Common        numbers, lists, Go's map (an association list) and its 64-bit int
--   Svc           gw/svc/states.go, and the lifecycle methods of
--                 gw/throttle/limiterinmembuckets.go; Svc/Lifecycle is any history of calls
--   Graph         core_graph.go (add, resolve, attach, seal), servicedep.go, servicenode.go; its
--                 children hold what a registration and a seal establish
--   Graph/Levels  levels of core_graph.go; Rank is the backward pass, Order is the grouping
--   Core          StartServices, rollbackStarted, TerminateServices, terminateNode and the operator's
--                 calls of gw/framework/core.go; Core/Register has RegisterService and
--                 RegisterServiceFunc; Core/Handle has deps.go and servicehandle.go;
--                 Core/Order, Core/Boot and Core/Teardown are about the walks
--   Throttle      Bucket: bucket.go, bucketconf.go; Conf: conf.go; Limiter: limiterinmembuckets.go,
--                 bucketgroup.go; Kvdb: what limiterkvdbbuckets.go keeps in its own process, with
--                 Kvdb/Text for a bucket as text and Kvdb/Admit for TryAdmit; all of gw/throttle
--   Locking       gw/locking/manager.go (the internal ledger) and managerlocalledgeronly.go;
--                 Locking/Shared has managerkvdbledger.go and kvdbledger.go
--   Kvdb          the part of the interface in gw/kvdbs/db.go that the clients here call, as a record
--                 of operations and laws; Kvdb/Memory is a store that keeps them
--   Jobs          gw/jobsched: service.go (Add, Delete and Tick hold its operations), cronjob.go
--                 (Cron), kvdbledger.go (Claim); Jobs/Claim/Fleet is many instances over one store
--   Pubsubs       gw/pubsubs: localsubscriptionmanager.go and the files beside it; Pubsubs/Broker has
--                 brokerlocalsubscriptionsonly.go
--   Coll          gw/coll/collection.go; Coll/Build has enumerate.go and flatten.go
--   Uds           gw/uds/cmdstore.go, cmdgroup.go, cmdhandler.go
--   ClientIp      gw/web/requests/ip.go
--   Sql           gw/sqldbs: cond.go, the files that implement it, and whereclause.go
--   Coord, Tg     gw/coord/mode.go, gw/tg/group.go
--
-- Representation. A pointer to a node of the registry is its slot in the list of nodes. A mutex makes
-- a method one step. What a service of the app does in Start and Terminate, what a factory builds and
-- what a function does while it holds names are arguments, of which nothing is assumed but what a
-- result states. A moment is a number of nanoseconds; an int is a number that wraps at 2 ^ 63, and a
-- panic of a division by zero or of an index out of range is `none`. Go's range over a map is read in
-- the order of the association list. A key-value store is a parameter: what is proved over one holds
-- of any that keeps the laws of Kvdb, and its calls may fail before their write or after it. A job's
-- task and a callback are what their calls come to. Every loop of the modelled code is structural
-- recursion over a list or a count, so no fuel is needed; a number is printed with at most 20 digits,
-- which is enough for 64 bits.
--
-- Not modelled: logging, the reading of files, sockets and databases, and the parts of the repository
-- that no file here names, among them the cleanup of a lock ledger, the brokers over a network,
-- sessions, the upstream client and the rest of the SQL layer. During one call of TryAdmit over a
-- store no other caller is interleaved.
pub mod Common
pub mod Svc
pub mod Graph
pub mod Core
pub mod Throttle
pub mod Locking
pub mod Coll
pub mod Uds
pub mod Coord
pub mod Tg
pub mod Kvdb
pub mod Jobs
pub mod Pubsubs
pub mod ClientIp
pub mod Sql
