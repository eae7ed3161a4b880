-- ===== src/Server.antt =====
-- The collectd plugin that receives the statistics: server/receiver.py and server/plugin.py.
pub mod Receiver
pub mod Stats
pub mod ReceiverQueue
