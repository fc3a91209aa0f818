-- ===== src/Plugins/Registry.antt =====
-- internal/monitor/plugins.go: `PluginsRegistry`, by what a cycle asks of it: whether a plugin is
-- registered, and its flag NoValueOnError.
use redborder_monitor.Base.{Bool, true, false, Option, [], ◌∷◌}
use redborder_monitor.Base.Text.{Bytes, codes}
use redborder_monitor.Base.Map.{Map, lookup}

abbrev pub plugins_registry : Map Bool
plugins_registry =
    (codes "ping", false)
    ∷ (codes "snmp", false)
    ∷ (codes "snmp_rate", true)
    ∷ (codes "snmp_walk", false)
    ∷ (codes "govc", false)
    ∷ (codes "redfish", false)
    ∷ (codes "ipmi", false)
    ∷ []

unfoldable pub registered : Bytes → Option Bool
registered name = lookup name plugins_registry
