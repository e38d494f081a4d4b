-- ===== src/Searcher.antt =====
-- cmd/simnet/search.go: `runOneSearcher`, a node's searches for its topic until the deadline. The
-- waits of its loops are places, and what a wait may give is an event; what the code reads at an event
-- (the clock, the membership, the shared connection table at each of its calls) comes with it, so
-- that the other goroutines may change it at any time between.
pub mod State
pub mod Yields
pub mod Loop
mod Firsts
mod Counts
mod Agree
mod Scheduled
mod Dialing
mod Cooldown
mod Tests
