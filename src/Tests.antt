-- ===== src/Tests.antt =====
-- Runs of the models on the inputs of the repository's Go tests and on small ones, and the
-- theorems at inputs that meet their hypotheses.
mod Framing
mod Routing
mod Sniffing
mod Statistics
mod Engines
mod Packets
mod Bridges
mod Echoes
mod Profiles
mod Connections
mod Flows
