-- ===== src/Tests.antt =====
-- The theorems on concrete inputs, and runs of the definitions.
mod Fixtures
mod Resources
mod Queues
mod States
mod Books
mod Configs
mod Placements
mod Reloads
mod Schedules
mod Partitions
