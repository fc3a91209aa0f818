-- ===== src/Plugins/Govc.antt =====
-- internal/monitor/plugins.go: `GovcPlugin`, its sessions, the search of its target and its metrics.
-- What the VMware library answers is the argument `Vsphere`.
pub mod Data
pub mod Host
pub mod Machine
pub mod Resolve
pub mod Session
pub mod Retry
