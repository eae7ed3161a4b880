-- ===== src/Client.antt =====
-- The plugin that applications embed: the files of sqlalchemy_collectd/client.
pub mod Collector
pub mod Sender
pub mod Worker
pub mod Plugin
