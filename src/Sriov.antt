-- ===== src/Sriov.antt =====
-- SR-IOV: os_net_config/sriov_config.py and os_net_config/sriov_bind_config.py.
pub mod Lines
pub mod Udev
pub mod Numvfs
pub mod Wait
pub mod Vfs
pub mod Bind
