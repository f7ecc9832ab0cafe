-- ===== src/Examples.antt =====
-- Concrete clusters, messages and replicas, at which the theorems are applied, and tests.
mod Data
mod Roles
mod Replica
mod Traffic
mod Cluster
mod Routing
mod Master
mod Depth
mod Coding
mod Databases
mod Numbers
