-- ===== src/Snmp.antt =====
-- internal/monitor/snmp.go: names of objects, the settings of a session, the decoding of a variable
-- and the three queries. The library behind them (gosnmp, gomib) is a parameter: `MibEngine` in
-- `Oid`, `SnmpClient` in `Client`.
pub mod Oid
pub mod Session
pub mod Pdu
pub mod Client
pub mod Grammar
pub mod Prefixes
pub mod Reachable
pub mod Walks
pub mod Timeouts
pub mod Healthy
mod Tests
