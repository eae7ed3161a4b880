-- ===== src/Tests.antt =====
-- Runs of the modelled code at concrete inputs, and the theorems at inputs that meet their
-- hypotheses.
mod Samples
mod Wire
mod Streams
mod Clients
mod Monitor
mod Servers
mod Displays
mod Plugins
