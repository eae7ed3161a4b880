-- ===== src/Network.antt =====
-- sqlalchemy_collectd/networking.py: what the ends of the UDP connections keep between calls.
pub mod Connections
pub mod Listeners
pub mod Endpoints
pub mod Forwarding
