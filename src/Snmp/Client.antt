-- ===== src/Snmp/Client.antt =====
-- internal/monitor/snmp.go: `getSNMPPDU` and the queries `SolveSNMPQuery`, `SolveSNMPCounter` and
-- `SolveSNMPWalk`, with the calls of gosnmp as the argument `SnmpClient`.
use redborder_monitor.Base.{ℕ, Option, none, some, List, [], ◌∷◌, ◌++◌, map, if◌then◌else◌}
use redborder_monitor.Base.Text.{Bytes, codes, quote}
use redborder_monitor.Base.Map.{Map}
use redborder_monitor.Base.Float.{Float}
use redborder_monitor.Base.Result.{Result, ok, err, ◌>>=◌}
use redborder_monitor.Base.Split.{join}
use redborder_monitor.Query.{Failure, object_not_found, invalid_oid, other_failure}
use redborder_monitor.Snmp.Oid.{MibEngine, translate_oid, is_valid_numeric_oid}
use redborder_monitor.Snmp.Session.{Login, SnmpParams, SnmpVersion, version1, setup_snmp_params}
use redborder_monitor.Snmp.Pdu.{
  Pdu, PduReader, Decoded, is_snmp_exception_type, decode_snmp_counter, decode_snmp_pdu,
}

-- An error of the library is its text.
pub record SnmpClient : Type 0 where
  pub engine : Option MibEngine
  pub prefix_order : Map Bytes
  pub reader : PduReader
  pub connect : SnmpParams → Result {0, 0} Bytes Unit
  pub get : SnmpParams → Bytes → Result Bytes (List Pdu)
  -- the variables that a walk hands to its function
  pub walk : SnmpParams → Bytes → Result Bytes (List Pdu)
  pub bulk_walk : SnmpParams → Bytes → Result Bytes (List Pdu)

-- an error that `errors.Is` does not know
abbrev pub lib_result {ℓ} : {A : Type ℓ} → Result Bytes A → Result Failure A
lib_result (ok a) = ok a
lib_result (err message) = err (record { kind = other_failure; message = message })

-- the numeric name of the object to ask for
unfoldable pub numeric_oid : SnmpClient → Bytes → Result Failure Bytes
numeric_oid c oid =
    let translated = translate_oid c.engine c.prefix_order oid in
    if is_valid_numeric_oid translated
    then ok translated
    else err (record {
      kind = invalid_oid;
      message =
          codes "invalid or unresolvable SNMP OID: OID "
          ++ (quote oid ++ codes " could not be resolved by MIBs to a numeric format");
    })

unfoldable pub first_variable : PduReader → Bytes → List Pdu → Result Failure Pdu
first_variable reader oid [] =
    err (record { kind = other_failure; message = codes "no variables returned in SNMP response" })
first_variable reader oid (p ∷ ps) =
    if is_snmp_exception_type p.type_tag
    then err (record {
      kind = object_not_found;
      message =
          codes "SNMP object not found on agent: OID "
          ++ (oid ++ (codes " (" ++ (reader.type_name p.type_tag ++ codes ")")));
    })
    else ok p

unfoldable pub get_snmp_pdu : SnmpClient → Login → Bytes → Result Failure Pdu
get_snmp_pdu c l oid = do
  translated ← numeric_oid c oid
  _ ← lib_result (c.connect (setup_snmp_params l))
  variables ← lib_result (c.get (setup_snmp_params l) translated)
  first_variable c.reader translated variables

unfoldable pub solve_snmp_counter : SnmpClient → Login → Bytes → Result Failure (ℕ × ℕ)
solve_snmp_counter c l oid = get_snmp_pdu c l oid >>= decode_snmp_counter c.reader

-- The walk goes on over variables that are not numbers.
abbrev pub walk_with : SnmpVersion → SnmpClient → SnmpParams → Bytes → Result Bytes (List Pdu)
walk_with version1 c p oid = c.walk p oid
walk_with _ c p oid = c.bulk_walk p oid

module _ {F : Type 0} ⦃fl : Float F⦄ where
  abbrev pub decode_answer : PduReader → Result Failure Pdu → Decoded F
  decode_answer reader (err f) = record {
    text = codes "0";
    number = fl.zero_value;
    failure = some f;
  }
  decode_answer reader (ok p) = decode_snmp_pdu reader p

  unfoldable pub solve_snmp_query : SnmpClient → Login → Bytes → Decoded F
  solve_snmp_query c l oid = decode_answer c.reader (get_snmp_pdu c l oid)

-- The text of a variable is read with the numbers of the type `F`, which it does not hold.
abbrev pub decoded_text : {F : Type 0} → Float F → PduReader → Pdu → Bytes
decoded_text fl reader p = (decode_snmp_pdu ⦃fl = fl⦄ reader p).text

unfoldable pub solve_snmp_walk :
    {F : Type 0} → Float F → SnmpClient → Login → Bytes → Result Failure Bytes
solve_snmp_walk fl c l oid = do
  translated ← numeric_oid c oid
  _ ← lib_result (c.connect (setup_snmp_params l))
  variables ←
      lib_result (walk_with (setup_snmp_params l).version c (setup_snmp_params l) translated)
  ok (join (codes ";") (map (decoded_text fl c.reader) variables))

-- What a query passes on: text and number, or the error.
abbrev pub outcome : {F : Type 0} → Bytes → F → Option Failure → Result Failure (Bytes × F)
outcome text x none = ok (text, x)
outcome text x (some f) = err f

abbrev pub query_outcome : {F : Type 0} → Decoded F → Result Failure (Bytes × F)
query_outcome d = outcome d.text d.number d.failure
