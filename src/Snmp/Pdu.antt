-- ===== src/Snmp/Pdu.antt =====
-- internal/monitor/snmp.go: the variables of an answer and their decoding (`isSNMPExceptionType`,
-- `decodeSNMPCounter`, `decodeSNMPPDU`). What gosnmp and fmt make of a dynamic value is the argument
-- `PduReader`.
use redborder_monitor.Base.{
  ℕ, ◌+◌, ◌%◌, ◌^◌, Bool, true, false, Option, none, some, [], ◌++◌, if◌then◌else◌,
}
use redborder_monitor.Base.Text.{Bytes, codes, is_empty, quote}
use redborder_monitor.Base.Int.{ℤ, pos_part, neg_part, bits_64, wrap_64}
use redborder_monitor.Base.Decimal.{format_ℕ, format_ℤ}
use redborder_monitor.Base.Float.{Float}
use redborder_monitor.Base.Result.{Result, ok, err}
use redborder_monitor.Query.{Failure, non_numeric_value}

-- `Asn1BER`, by the types that the source names
pub data PduType : Type 0 where
  octet_string : PduType
  integer : PduType
  counter32 : PduType
  gauge32 : PduType
  time_ticks : PduType
  counter64 : PduType
  no_such_object : PduType
  no_such_instance : PduType
  end_of_mib_view : PduType
  other_type : ℕ → PduType

-- the dynamic types that the source asks for
pub data PduValue : Type 0 where
  octets : Bytes → PduValue
  string : Bytes → PduValue
  uint : ℕ → PduValue
  other_value : ℕ → PduValue

pub record Pdu : Type 0 where
  pub name : Bytes
  pub type_tag : PduType
  pub value : PduValue

-- `gosnmp.ToBigInt`, and the printing of a type and of a value
pub record PduReader : Type 0 where
  pub to_big_int : PduValue → ℤ
  pub type_name : PduType → Bytes
  pub print_value : PduValue → Bytes

-- text, number and error, of which the text is also used beside an error
pub record Decoded (F : Type 0) : Type 0 where
  pub text : Bytes
  pub number : F
  pub failure : Option Failure

unfoldable pub is_snmp_exception_type : PduType → Bool
is_snmp_exception_type no_such_object = true
is_snmp_exception_type no_such_instance = true
is_snmp_exception_type end_of_mib_view = true
is_snmp_exception_type _ = false

-- big.Int's Uint64: the low bits of the size
abbrev pub big_uint64 : ℤ → ℕ
big_uint64 z = (pos_part z + neg_part z) % 2 ^ 64

-- big.Int's Int64
abbrev pub big_int64 : ℤ → ℤ
big_int64 z = wrap_64 z

abbrev pub uint64_or : ℕ → PduValue → ℕ
uint64_or def (uint u) = u
uint64_or def _ = def

abbrev pub not_numeric : Bytes → Failure
not_numeric detail = record {
  kind = non_numeric_value;
  message = codes "SNMP returned non-numeric value: " ++ detail;
}

unfoldable pub decode_snmp_counter : PduReader → Pdu → Result Failure (ℕ × ℕ)
decode_snmp_counter reader p = elim p.type_tag [
  | counter32 ↦ ok (big_uint64 (reader.to_big_int p.value), 32)
  | counter64 ↦ ok (uint64_or (big_uint64 (reader.to_big_int p.value)) p.value, 64)
  | t ↦ err (
      not_numeric (
        codes "OID "
        ++ (p.name
            ++ (codes " is " ++ (reader.type_name t ++ codes ", not a Counter32/Counter64")))))
]

abbrev pub bytes_of : PduValue → Bytes
bytes_of (octets b) = b
bytes_of (string s) = s
bytes_of _ = []

module _ {F : Type 0} ⦃fl : Float F⦄ where
  -- strconv.ParseFloat of the text, with the detail of the error
  abbrev pub decode_number : Bytes → Option F → Bytes → Decoded F
  decode_number s (some x) detail = record { text = s; number = x; failure = none }
  decode_number s none detail = record {
    text = s;
    number = fl.zero_value;
    failure = some (not_numeric detail);
  }

  abbrev pub decode_octets : Bytes → Decoded F
  decode_octets s =
      if is_empty s
      then record { text = codes "0"; number = fl.zero_value; failure = none }
      else decode_number s (fl.parse_float s) (quote s ++ codes " is not a number")

  abbrev pub decode_signed : ℤ → Decoded F
  decode_signed z = record { text = format_ℤ z; number = fl.of_ℤ z; failure = none }

  abbrev pub decode_unsigned : ℕ → Decoded F
  decode_unsigned n = record { text = format_ℕ n; number = fl.of_ℕ n; failure = none }

  abbrev pub decode_printed : Bytes → Decoded F
  decode_printed s = decode_number s (fl.parse_float s) (quote s)

  abbrev pub decode_typed : PduReader → PduType → PduValue → Decoded F
  decode_typed reader octet_string v = decode_octets (bytes_of v)
  decode_typed reader integer v = decode_signed (big_int64 (reader.to_big_int v))
  decode_typed reader counter32 v = decode_signed (big_int64 (reader.to_big_int v))
  decode_typed reader gauge32 v = decode_signed (big_int64 (reader.to_big_int v))
  decode_typed reader time_ticks v = decode_signed (big_int64 (reader.to_big_int v))
  decode_typed reader counter64 v = decode_unsigned (uint64_or (bits_64 (reader.to_big_int v)) v)
  decode_typed reader _ v = decode_printed (reader.print_value v)

  unfoldable pub decode_snmp_pdu : PduReader → Pdu → Decoded F
  decode_snmp_pdu reader p = decode_typed reader p.type_tag p.value
