-- ===== src/Lib.antt =====
-- The TopDisc testbed's own logic: the simulator's connection model, searchers, churn and
-- bookkeeping, the scenario's checks, the address pool, the placement on machines, the assignments,
-- the node's sessions, the crawler and the metrics of a run.
--
-- Files and the code that they model (paths from the repository's root):
--   Base: shared names, sets, maps, sums and sorting over native numbers.
--   ConnTable: cmd/simnet/conn_model.go, the peer slots of every node and their drivers.
--   DeadResult: cmd/simnet/deadresult.go, offline registrants among the results of searches.
--   Churn: pkg/churn/model.go, the topic and the /24 prefixes that a node draws from,
--     and the absences that are planned for it.
--   Assign: pkg/assign/assign.go, when each node starts, registers, searches and stops, whom it
--     bootstraps from, and which nodes run the older client.
--   Ghosts: pkg/assign/ghosts.go, the unreachable records pinned in every node's table.
--   Host: pkg/host/netns.go, the qdisc counters that a host reads from netlink.
--   Addr: pkg/addr/addr.go, the address of every node; it draws through Churn.
--   Placement: pkg/coordinator/cloud.go, the machine and slot of every node, by the /24s
--     of Addr or by region.
--   Population: cmd/simnet/workload_churn.go, the live nodes under steady-state churn.
--   Membership: cmd/simnet/membership.go, the registrants of every topic.
--   Scenario: pkg/scenario/scenario.go, the checks of a scenario, with the ports of nodes and ghosts
--     (pkg/coordinator/local.go, pkg/assign).
--   Searcher: cmd/simnet/search.go, one searcher of the simulator, from wait to wait; it dials
--     through ConnTable and records dead results through DeadResult.
--   Session: cmd/node/session.go, the online periods of a node process and what it keeps of them.
--   Lookup: pkg/workload/lookup.go, the searches that a session runs.
--   Trace: pkg/host/trace.go, the traces of a node's sessions merged into one.
--   Wan: pkg/wan/regions.go, the one-way delays between the nodes, by region.
--   Drive: pkg/coordinator/drive.go with the counts planned in pkg/coordinator/collect.go, the churn
--     calls of a run.
--   Crawl: cmd/crawl/main.go, the registry of the nodes that the crawl has seen, their probes and
--     sweeps, as steps of the goroutines that interleave.
--   Fleet: pkg/scenario/scenario.go, the instances of each region.
--   Drops: pkg/coordinator/collect.go, the rise of a host's counter over its samples.
--   Coverage: cmd/simnet/coverage.go, the registrants in the nodes' topic tables.
--   Metrics: pkg/coordinator/metrics.go, what a run reports of its searches and of the load.
--
-- Conventions. A slice with an entry for each node is a function of the index, a set of indices
-- the list of its keys in the order of a range, a map an association list or a function. Draws of
-- math/rand, the choice that a range over a map makes, and `time.Now()` are arguments. Counts that
-- a part takes as numbers are not negative. In Trace, Metrics and Scenario, what may be
-- negative (times in milliseconds, the pool size) is an integer. float64 is a type parameter, with the
-- operations and the laws of its order that a part uses as an interface.
-- Bytes are numbers, and the machine's byte order is an interface, which the little-endian one fills.
--
-- Bounds. dropRandom makes at most 20 attempts for each connection to drop, as the code does; Draw
-- makes 64 tries for each node. A binary search has the length of its range as fuel, which is enough
-- as each round leaves a shorter one. The loops over netlink bytes have fuel one more than the bytes,
-- which is enough as each round leaves fewer. The planning of absences has fuel one more than the
-- crawls that reach the end of the window, as each round passes a crawl or a gap, which is no shorter.
-- All other loops recur on the list that they range over or on
-- the number of rounds that is left.
--
-- Not modelled: printing, JSON and files, network and process control, and the libraries that the
-- code calls (go-ethereum, simnet), which appear as parameters.
pub mod Base
pub mod ConnTable
pub mod DeadResult
pub mod Churn
pub mod Assign
pub mod Ghosts
pub mod Host
pub mod Addr
pub mod Placement
pub mod Population
pub mod Membership
pub mod Metrics
pub mod Scenario
pub mod Searcher
pub mod Session
pub mod Lookup
pub mod Trace
pub mod Wan
pub mod Drive
pub mod Crawl
pub mod Fleet
pub mod Coverage
pub mod Drops
