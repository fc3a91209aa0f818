-- ===== src/Snmp/Oid.antt =====
-- internal/monitor/snmp.go: `TranslateOID` and `isValidNumericOID`. The parsed MIBs are the argument
-- `MibEngine`, and the order in which Go visits the entries of `prefixMap` is the argument `order`.
use redborder_monitor.Base.{
  Bool, true, not, ◌&&◌, Option, none, some, List, [], ◌∷◌, ◌++◌, is_some, if◌then◌else◌,
}
use redborder_monitor.Base.Text.{
  Bytes, codes, is_digit, is_empty, strip_prefix?, trim_prefix, trim_space, cut,
}
use redborder_monitor.Base.Map.{Map, lookup}
use redborder_monitor.Base.Split.{split, replace_all}

-- The loaded MIBs: the numeric name of an object, in a module and in all of them.
pub record MibEngine : Type 0 where
  pub module_object : Bytes → Option (Bytes → Option Bytes)
  pub object : Bytes → Option Bytes

abbrev pub oid_map : Map Bytes
oid_map =
    (codes "UCD-SNMP-MIB::laLoad.1", codes ".1.3.6.1.4.1.2021.10.1.3.1")
    ∷ (codes "UCD-SNMP-MIB::laLoad.2", codes ".1.3.6.1.4.1.2021.10.1.3.2")
    ∷ (codes "UCD-SNMP-MIB::laLoad.3", codes ".1.3.6.1.4.1.2021.10.1.3.3")
    ∷ (codes "UCD-SNMP-MIB::laLoad", codes ".1.3.6.1.4.1.2021.10.1.3")
    ∷ (codes "UCD-SNMP-MIB::ssCpuUser.0", codes ".1.3.6.1.4.1.2021.11.9.0")
    ∷ (codes "UCD-SNMP-MIB::ssCpuSystem.0", codes ".1.3.6.1.4.1.2021.11.10.0")
    ∷ (codes "UCD-SNMP-MIB::ssCpuIdle.0", codes ".1.3.6.1.4.1.2021.11.11.0")
    ∷ (codes "UCD-SNMP-MIB::memTotalReal.0", codes ".1.3.6.1.4.1.2021.4.5.0")
    ∷ (codes "UCD-SNMP-MIB::memAvailReal.0", codes ".1.3.6.1.4.1.2021.4.6.0")
    ∷ (codes "UCD-SNMP-MIB::memTotalSwap.0", codes ".1.3.6.1.4.1.2021.4.3.0")
    ∷ (codes "UCD-SNMP-MIB::memAvailSwap.0", codes ".1.3.6.1.4.1.2021.4.4.0")
    ∷ (codes "UCD-SNMP-MIB::memBuffer.0", codes ".1.3.6.1.4.1.2021.4.14.0")
    ∷ (codes "UCD-SNMP-MIB::memShared.0", codes ".1.3.6.1.4.1.2021.4.13.0")
    ∷ (codes "UCD-SNMP-MIB::memCached.0", codes ".1.3.6.1.4.1.2021.4.15.0")
    ∷ (codes "UCD-SNMP-MIB::dskPercent.1", codes ".1.3.6.1.4.1.2021.9.1.9.1")
    ∷ (codes "laLoad.1", codes ".1.3.6.1.4.1.2021.10.1.3.1")
    ∷ (codes "laLoad.2", codes ".1.3.6.1.4.1.2021.10.1.3.2")
    ∷ (codes "laLoad.3", codes ".1.3.6.1.4.1.2021.10.1.3.3")
    ∷ (codes "laLoad", codes ".1.3.6.1.4.1.2021.10.1.3")
    ∷ (codes "ssCpuUser.0", codes ".1.3.6.1.4.1.2021.11.9.0")
    ∷ (codes "ssCpuSystem.0", codes ".1.3.6.1.4.1.2021.11.10.0")
    ∷ (codes "ssCpuIdle.0", codes ".1.3.6.1.4.1.2021.11.11.0")
    ∷ (codes "memTotalReal.0", codes ".1.3.6.1.4.1.2021.4.5.0")
    ∷ (codes "memAvailReal.0", codes ".1.3.6.1.4.1.2021.4.6.0")
    ∷ (codes "memTotalSwap.0", codes ".1.3.6.1.4.1.2021.4.3.0")
    ∷ (codes "memAvailSwap.0", codes ".1.3.6.1.4.1.2021.4.4.0")
    ∷ (codes "memBuffer.0", codes ".1.3.6.1.4.1.2021.4.14.0")
    ∷ (codes "memShared.0", codes ".1.3.6.1.4.1.2021.4.13.0")
    ∷ (codes "memCached.0", codes ".1.3.6.1.4.1.2021.4.15.0")
    ∷ (codes "dskPercent.1", codes ".1.3.6.1.4.1.2021.9.1.9.1")
    ∷ []

abbrev pub prefix_map : Map Bytes
prefix_map =
    (codes "SNMPv2-SMI::enterprises.", codes ".1.3.6.1.4.1.")
    ∷ (codes "SNMPv2-SMI::mib-2.", codes ".1.3.6.1.2.1.")
    ∷ (codes "IF-MIB::", codes ".1.3.6.1.2.1.2.")
    ∷ (codes "IP-MIB::", codes ".1.3.6.1.2.1.4.")
    ∷ (codes "TCP-MIB::", codes ".1.3.6.1.2.1.6.")
    ∷ (codes "UDP-MIB::", codes ".1.3.6.1.2.1.7.")
    ∷ (codes "HOST-RESOURCES-MIB::", codes ".1.3.6.1.2.1.25.")
    ∷ (codes "UCD-SNMP-MIB::", codes ".1.3.6.1.4.1.2021.")
    ∷ []

abbrev pub or_else : Option Bytes → Option Bytes → Option Bytes
or_else (some x) other = some x
or_else none other = other

abbrev pub object_in : Option (Bytes → Option Bytes) → Bytes → Option Bytes
object_in none symbol = none
object_in (some object) symbol = object symbol

-- the object of a name, with the module that the name may give
unfoldable pub find_object : MibEngine → Bytes → Option Bytes
find_object engine name = elim (cut (codes "::") name) [
  | none ↦ engine.object name
  | some (mod_name, symbol) ↦
      or_else (object_in (engine.module_object mod_name) symbol) (engine.object symbol)
]

-- the name in front of the first dot, and the index behind it with its dot
abbrev pub name_and_suffix : Option (Bytes × Bytes) → Bytes → Bytes × Bytes
name_and_suffix none oid = (oid, [])
name_and_suffix (some (name, index)) oid = (name, b'.' ∷ index)

abbrev pub with_dot : Bytes → Bytes
with_dot oid = if is_some (strip_prefix? (codes ".") oid) then oid else b'.' ∷ oid

abbrev pub with_suffix : Option Bytes → Bytes → Option Bytes
with_suffix none suffix = none
with_suffix (some oid) suffix = some (with_dot oid ++ suffix)

unfoldable pub resolve_with : Option MibEngine → Bytes → Option Bytes
resolve_with none oid = none
resolve_with (some engine) oid =
    let (name, suffix) = name_and_suffix (cut (codes ".") oid) oid in
    with_suffix (find_object engine name) suffix

abbrev pub tidy : Bytes → Bytes
tidy oid = trim_prefix (codes ".") (replace_all (codes "..") (codes ".") oid)

-- the first prefix that the text has
unfoldable pub replace_prefix : Map Bytes → Bytes → Option Bytes
replace_prefix [] oid = none
replace_prefix ((prefix, replacement) ∷ order) oid = elim (strip_prefix? prefix oid) [
  | none ↦ replace_prefix order oid
  | some rest ↦ some (tidy (replacement ++ rest))
]

abbrev pub value_or : Option Bytes → Bytes → Bytes
value_or none def = def
value_or (some x) def = x

abbrev pub translate_trimmed : Option MibEngine → Map Bytes → Bytes → Bytes
translate_trimmed engine order oid =
    value_or (resolve_with engine oid)
      (value_or (lookup oid oid_map) (value_or (replace_prefix order oid) oid))

unfoldable pub translate_oid : Option MibEngine → Map Bytes → Bytes → Bytes
translate_oid engine order oid = translate_trimmed engine order (trim_space oid)

unfoldable pub all_digits : Bytes → Bool
all_digits [] = true
all_digits (c ∷ s) = is_digit c && all_digits s

abbrev pub all_numbers : List Bytes → Bool
all_numbers [] = true
all_numbers (p ∷ ps) = not (is_empty p) && all_digits p && all_numbers ps

unfoldable pub is_valid_numeric_oid : Bytes → Bool
is_valid_numeric_oid oid =
    let rest = trim_prefix (codes ".") oid in
    not (is_empty rest) && all_numbers (split (codes ".") rest)
