-- ===== src/Examples.antt =====
-- The program's parts on small inputs.
mod Data
mod Policies
mod Databases
mod Runtimes
mod Requests
mod Events
mod Fractions
mod Gateways
mod Lifecycle
mod Tables
mod Cluster
mod Drivers
mod Loading
mod Serving
