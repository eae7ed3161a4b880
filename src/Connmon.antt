-- ===== src/Connmon.antt =====
-- sqlalchemy_collectd/connmon: what is forwarded to a monitor, its figures and its screen.
pub mod HostProg
pub mod Stat
pub mod Forwarder
pub mod Markup
pub mod Layout
pub mod Display
pub mod Timer
pub mod Render
