-- ===== src/Metrics.antt =====
-- pkg/coordinator/metrics.go: what a run reports of its searches and of the load over time, from
-- the nodes' traces. Ids are numbers, times signed milliseconds.
pub mod Search
pub mod Series
mod Finds
mod Slots
mod Load
mod Growth
mod Recall
mod Tests
mod SeriesTests
