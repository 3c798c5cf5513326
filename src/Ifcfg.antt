-- ===== src/Ifcfg.antt =====
-- The ifcfg provider, os_net_config/impl_ifcfg.py.
pub mod Parse
pub mod Changes
pub mod Commands
pub mod Routes
pub mod Common
pub mod Apply
pub mod Provider
pub mod RouteTable
