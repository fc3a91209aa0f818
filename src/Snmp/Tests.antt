-- ===== src/Snmp/Tests.antt =====
-- Examples for the SNMP client: an agent that knows two objects.
use mathlib.Core.List.Permᴰ.{swap}
use mathlib.Core.Path.{subst}
use redborder_monitor.Base.{
  arith, ℕ, zero, suc, some, inl, inr, get_elem?, ◌≡◌, ◌↔◌, refl, true, none, [], ◌∷◌,
  if◌then◌else◌,
}
use redborder_monitor.Base.Text.{
  Bytes, codes, same, to_lower, trim_space, strip_prefix?, cut, is_digit,
}
use redborder_monitor.Base.Int.{pos}
use redborder_monitor.Base.Decimal.{format_ℕ}
use redborder_monitor.Base.Map.{Map, lookup}
use redborder_monitor.Base.Result.{ok}
use redborder_monitor.Base.Split.{split, join, replace_all}
use redborder_monitor.Base.Float.Sample.{Sample, sample}
use redborder_monitor.Model.{Monitor, Sensor}
use redborder_monitor.Model.Sample.{blank_monitor, blank_sensor}
use redborder_monitor.Query.{World, Reply, is_serious, process_snmp_monitor}
use redborder_monitor.Sensor.{new_safe_sensor, normal_timeout}
use redborder_monitor.Cycle.{Run, run_cycle}
use redborder_monitor.Reload.Keeps.{some_injective}
use redborder_monitor.Snmp.Healthy.{IsAnswered, IsHealthy, run_cycle-IsHealthy}
use redborder_monitor.Snmp.Oid.{
  all_digits, resolve_with, replace_prefix, prefix_map, translate_oid, is_valid_numeric_oid,
}
use redborder_monitor.Snmp.Session.{login_of, version_of, Login, setup_snmp_params, plain_name}
use redborder_monitor.Snmp.Pdu.{
  Pdu, PduReader, octets, uint, octet_string, counter64, no_such_object, decode_snmp_pdu,
}
use redborder_monitor.Snmp.Client.{
  SnmpClient, numeric_oid, query_outcome, solve_snmp_query, solve_snmp_walk,
}
use redborder_monitor.Snmp.Grammar.{IsNumericOid, is_valid_numeric_oid_iff}
use redborder_monitor.Snmp.Prefixes.{translate_oid_order}
use redborder_monitor.Snmp.Reachable.{asked_in_vain, process_snmp_monitor-serious}
use redborder_monitor.Snmp.Timeouts.{setup_snmp_params-TakesOf}
use redborder_monitor.Snmp.Walks.{solve_snmp_walk-split}

abbrev rest_of_map : Map Bytes
rest_of_map = elim prefix_map [ x ∷ y ∷ rest ↦ rest | _ ↦ [] ]

abbrev reader : PduReader
reader = record {
  to_big_int = λ v. elim v [ uint n ↦ pos n | _ ↦ pos 0 ];
  type_name = λ t. codes "type";
  print_value = λ v. codes "value";
}

abbrev load : Pdu
load = record { name = codes "load"; type_tag = octet_string; value = octets (codes "12") }

abbrev octets_in : Pdu
octets_in = record { name = codes "in"; type_tag = counter64; value = uint 700 }

abbrev missing : Pdu
missing = record { name = codes "gone"; type_tag = no_such_object; value = uint 0 }

abbrev agent : SnmpClient
agent = record {
  engine = none;
  prefix_order = prefix_map;
  reader = reader;
  connect = λ p. ok tt;
  get = λ p oid. if same oid (codes ".1.3") then ok (load ∷ []) else ok (missing ∷ []);
  walk = λ p oid. ok (load ∷ octets_in ∷ []);
  bulk_walk = λ p oid. ok (load ∷ octets_in ∷ []);
}

abbrev login : Login
login = record {
  context = some (pos 2000000000);
  ip = codes "10.0.0.1";
  community = codes "public";
  version = codes "2c";
  timeout = pos 2000;
  username = [];
  security_level = [];
  auth_protocol = codes "SHA-256";
  auth_password = [];
  priv_protocol = [];
  priv_password = [];
}

abbrev uptime : Monitor Sample
uptime = record blank_monitor { name = codes "uptime"; oid = codes ".1.9" }

-- an exception, and the answer that the cycle gets for it
abbrev uptime_reply : Reply Sample
uptime_reply = record {
  started = true;
  snmp = query_outcome (solve_snmp_query agent login (codes ".1.9"));
  output = [];
  failure = none;
  now = pos 0;
}

sha_256 : plain_name (codes "SHA-256") ≡ codes "sha256"
unfolding to_lower replace_all split join strip_prefix?
sha_256 = refl

interfaces : translate_oid none prefix_map (codes " IF-MIB::2.1.10 ") ≡ codes "1.3.6.1.2.1.2.2.1.10"
unfolding translate_oid trim_space resolve_with lookup same replace_prefix strip_prefix? replace_all
    join split
interfaces = refl

is_valid_numeric_oid_iff_example :
    (is_valid_numeric_oid (codes ".1.36.4") ≡ true) ↔ IsNumericOid (codes ".1.36.4")
is_valid_numeric_oid_iff_example = is_valid_numeric_oid_iff (codes ".1.36.4")

translate_oid_order_example :
    translate_oid none
      ((codes "SNMPv2-SMI::mib-2.", codes ".1.3.6.1.2.1.")
        ∷ (codes "SNMPv2-SMI::enterprises.", codes ".1.3.6.1.4.1.")
        ∷ rest_of_map)
      (codes "IF-MIB::2.1.10")
    ≡ translate_oid none prefix_map (codes "IF-MIB::2.1.10")
translate_oid_order_example =
    translate_oid_order none
      ((codes "SNMPv2-SMI::mib-2.", codes ".1.3.6.1.2.1.")
        ∷ (codes "SNMPv2-SMI::enterprises.", codes ".1.3.6.1.4.1.")
        ∷ rest_of_map)
      (codes "IF-MIB::2.1.10") (swap refl refl)

abbrev hasty : Sensor Sample
hasty = record blank_sensor { timeout = pos 200 }

setup_snmp_params-TakesOf_example :
    ((setup_snmp_params (login_of hasty)).retries ≡ 2)
    × ((setup_snmp_params (login_of hasty)).context ≡ some (pos 200000000))
    × ((attempt : ℕ) × ((setup_snmp_params (login_of hasty)).timeout ≡ pos attempt)
        × (attempt ≡ 200000000))
setup_snmp_params-TakesOf_example = setup_snmp_params-TakesOf hasty (omega arith)

solve_snmp_walk-split_example :
    (text : Bytes) × (solve_snmp_walk sample agent login (codes ".1.3") ≡ ok text)
    × (split (codes ";") text ≡ (codes "12" ∷ codes "700" ∷ []))
unfolding numeric_oid is_valid_numeric_oid split all_digits is_digit translate_oid trim_space
    resolve_with replace_prefix lookup setup_snmp_params version_of to_lower decode_snmp_pdu
    format_ℕ cut strip_prefix? same
solve_snmp_walk-split_example =
    solve_snmp_walk-split sample agent login (codes ".1.3") (codes ".1.3") load (octets_in ∷ [])
      refl refl refl (refl, (refl, tt))

process_snmp_monitor-serious_example :
    is_serious (process_snmp_monitor uptime uptime_reply).failure
    ≡ asked_in_vain agent login (codes ".1.9")
process_snmp_monitor-serious_example =
    process_snmp_monitor-serious agent login uptime uptime_reply refl

abbrev doubled : Monitor Sample
doubled = record blank_monitor { name = codes "doubled"; op = codes "uptime + uptime" }

abbrev host : Sensor Sample
host = record blank_sensor {
  timeout = pos 2000;
  sensor_ip = codes "10.0.0.1";
  monitors = uptime ∷ doubled ∷ [];
}

abbrev answers : World Sample
answers = record {
  reply = λ i. record uptime_reply {
    snmp = query_outcome (solve_snmp_query agent (login_of host) (codes ".1.9"));
  };
  registry = λ name. none;
  order = 0 ∷ [];
  start = pos 3;
  duration = 1000;
}

-- a sensor in the slow queue behind four failures
abbrev before_cycle : Run Sample
before_cycle = record {
  safe = record (new_safe_sensor host) { low_priority = 1; consecutive_fails = 4 };
  outbox = record { sent = []; generated = 0 };
  sensors_processed = 0;
  sensors_skipped = 0;
}

answered :
    (i : ℕ) (m : Monitor Sample)
    → get_elem? (uptime ∷ doubled ∷ []) i ≡ some m
    → IsAnswered agent (login_of host) m (answers.reply i)
unfolding numeric_oid login_of is_valid_numeric_oid strip_prefix? translate_oid resolve_with lookup
    same trim_space replace_prefix split all_digits is_digit
answered zero m e =
    subst (λ n. IsAnswered agent (login_of host) n (answers.reply 0)) (some_injective e)
      (inl (refl, refl, refl))
answered (suc zero) m e =
    subst (λ n. IsAnswered agent (login_of host) n (answers.reply 1)) (some_injective e)
      (inr (refl, refl))
answered (suc (suc i)) m e = cc e

run_cycle-IsHealthy_example : IsHealthy (run_cycle (pos 2) answers before_cycle).safe
unfolding new_safe_sensor normal_timeout
run_cycle-IsHealthy_example =
    run_cycle-IsHealthy agent answers (pos 2) before_cycle answered (omega arith) (omega arith)
