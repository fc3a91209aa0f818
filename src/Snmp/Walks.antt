-- ===== src/Snmp/Walks.antt =====
-- internal/monitor/snmp.go: the text of a walk.
use redborder_monitor.Base.{◌≡◌, refl, List, ◌∷◌, All, map}
use redborder_monitor.Base.Text.{Bytes, codes}
use redborder_monitor.Base.Float.{Float}
use redborder_monitor.Base.Result.{ok}
use redborder_monitor.Base.Split.{split, join}
use redborder_monitor.Base.Join.{Lacks, split-join}
use redborder_monitor.Snmp.Session.{Login, setup_snmp_params}
use redborder_monitor.Snmp.Pdu.{Pdu}
use redborder_monitor.Snmp.Client.{
  SnmpClient, numeric_oid, walk_with, decoded_text, solve_snmp_walk,
}

module _ {F : Type 0} (fl : Float F) (c : SnmpClient) (l : Login) where
  -- Where a name can be resolved, the agent is reached and the walk finds at least one variable,
  -- none of whose texts holds a semicolon, the result split at the semicolons is the texts of the
  -- variables in their order, those that are no numbers included.
  pub solve_snmp_walk-split :
      (oid numeric : Bytes) (p : Pdu) (ps : List Pdu)
      → numeric_oid c oid ≡ ok numeric
      → c.connect (setup_snmp_params l) ≡ ok tt
      → walk_with (setup_snmp_params l).version c (setup_snmp_params l) numeric ≡ ok (p ∷ ps)
      → All (Lacks b';') (map (decoded_text fl c.reader) (p ∷ ps))
      → (text : Bytes) × (solve_snmp_walk fl c l oid ≡ ok text)
        × (split (codes ";") text ≡ map (decoded_text fl c.reader) (p ∷ ps))
  unfolding solve_snmp_walk
  solve_snmp_walk-split oid numeric p ps e f g h = (
    join (codes ";") (map (decoded_text fl c.reader) (p ∷ ps)),
    rw (e, f, g) refl,
    split-join b';' _ _ h,
  )
