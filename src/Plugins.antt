-- ===== src/Plugins.antt =====
-- internal/monitor/plugins.go and internal/monitor/system.go: the plugins of the registry and the
-- system command, over what the libraries behind them answer.
pub mod Outcome
pub mod Snmp
pub mod Ping
pub mod Redfish
pub mod Ipmi
pub mod Command
pub mod Govc
pub mod Registry
mod Tests
