-- ===== src/Snmp/Reachable.antt =====
-- internal/monitor/snmp.go with the use of its answers in internal/monitor/processor.go: which
-- queries count against the sensor.
use redborder_monitor.Base.{
  ◌⊎◌, ◌≡◌, refl, sym, ◌∙◌, ap, Bool, true, false, Option, none, some, List, [], ◌∷◌, arith,
  Bool-cases, Option-cases, inl, inr,
}
use redborder_monitor.Base.Text.{Bytes}
use redborder_monitor.Base.Float.{Float}
use redborder_monitor.Base.Result.{Result, ok, err}
use redborder_monitor.Model.{Monitor}
use redborder_monitor.Query.{Failure, Reply, is_serious, is_unavailable, process_snmp_monitor}
use redborder_monitor.Snmp.Session.{Login, setup_snmp_params}
use redborder_monitor.Snmp.Pdu.{
  Pdu, PduReader, octet_string, integer, counter32, gauge32, time_ticks, counter64,
  is_snmp_exception_type, decode_snmp_pdu, Decoded, bytes_of, decode_number, decode_octets,
  decode_typed, PduType, PduValue,
}
use redborder_monitor.Snmp.Client.{
  SnmpClient, numeric_oid, first_variable, get_snmp_pdu, solve_snmp_query, query_outcome,
  decode_answer,
}

-- The agent is asked and gives no variable: the session fails, the request fails, or its answer is
-- empty.
abbrev pub gives_none : Result Bytes (List Pdu) → Bool
gives_none (err message) = true
gives_none (ok []) = true
gives_none (ok (p ∷ ps)) = false

abbrev pub fails_behind : Result {0, 0} Bytes Unit → Bool → Bool
fails_behind (err message) b = true
fails_behind (ok u) b = b

abbrev pub asked_in_vain_at : SnmpClient → Login → Result Failure Bytes → Bool
asked_in_vain_at c l (err f) = false
asked_in_vain_at c l (ok oid) =
    fails_behind (c.connect (setup_snmp_params l)) (gives_none (c.get (setup_snmp_params l) oid))

abbrev pub asked_in_vain : SnmpClient → Login → Bytes → Bool
asked_in_vain c l oid = asked_in_vain_at c l (numeric_oid c oid)

abbrev failure_in {ℓ} : {A : Type ℓ} → Result Failure A → Option Failure
failure_in (ok a) = none
failure_in (err f) = some f

Result-cases {ℓ κ} :
    {E : Type κ} {A : Type ℓ} (r : Result E A) → ((e : E) × (r ≡ err e)) ⊎ ((a : A) × (r ≡ ok a))
Result-cases (err e) = inl (e, refl)
Result-cases (ok a) = inr (a, refl)

first_variable-serious :
    (reader : PduReader) (oid : Bytes) (ps : List Pdu)
    → is_serious (failure_in (first_variable reader oid ps)) ≡ gives_none (ok ps)
unfolding first_variable
first_variable-serious reader oid [] = refl
first_variable-serious reader oid (p ∷ ps) = elim (Bool-cases (is_snmp_exception_type p.type_tag)) [
  | inl h ↦ rw h refl
  | inr h ↦ rw h refl
]

numeric_oid-not_serious :
    (c : SnmpClient) (oid : Bytes) → is_serious (failure_in (numeric_oid c oid)) ≡ false
unfolding numeric_oid
numeric_oid-not_serious c oid = ground arith

get_snmp_pdu-serious :
    (c : SnmpClient) (l : Login) (oid : Bytes)
    → is_serious (failure_in (get_snmp_pdu c l oid)) ≡ asked_in_vain c l oid
unfolding get_snmp_pdu
get_snmp_pdu-serious c l oid = elim (Result-cases (numeric_oid c oid)) [
  | inl (f, e) ↦ rw e (sym (ap (λ r. is_serious (failure_in r)) e) ∙ numeric_oid-not_serious c oid)
  | inr (n, e) ↦ elim (Result-cases (c.connect (setup_snmp_params l))) [
    | inl (message, f) ↦ rw (e, f) refl
    | inr (u, f) ↦ elim (Result-cases (c.get (setup_snmp_params l) n)) [
      | inl (message, g) ↦ rw (e, f, g) refl
      | inr (ps, g) ↦ rw (e, f, g) (first_variable-serious c.reader n ps)
    ]
  ]
]

decode_number-not_serious :
    {F : Type 0} (fl : Float F) (s detail : Bytes) (o : Option F)
    → is_serious (decode_number ⦃fl = fl⦄ s o detail).failure ≡ false
decode_number-not_serious fl s detail none = refl
decode_number-not_serious fl s detail (some x) = refl

decode_octets-not_serious :
    {F : Type 0} (fl : Float F) (s : Bytes) → is_serious (decode_octets ⦃fl = fl⦄ s).failure ≡ false
decode_octets-not_serious fl [] = refl
decode_octets-not_serious fl (c ∷ s) =
    decode_number-not_serious fl (c ∷ s) _ (fl.parse_float (c ∷ s))

decode_typed-not_serious :
    {F : Type 0} (fl : Float F) (reader : PduReader) (t : PduType) (v : PduValue)
    → is_serious (decode_typed ⦃fl = fl⦄ reader t v).failure ≡ false
decode_typed-not_serious fl reader octet_string v = decode_octets-not_serious fl (bytes_of v)
decode_typed-not_serious fl reader integer v = refl
decode_typed-not_serious fl reader counter32 v = refl
decode_typed-not_serious fl reader gauge32 v = refl
decode_typed-not_serious fl reader time_ticks v = refl
decode_typed-not_serious fl reader counter64 v = refl
decode_typed-not_serious fl reader _ v =
    decode_number-not_serious fl (reader.print_value v) _ (fl.parse_float (reader.print_value v))

decode_answer-serious :
    {F : Type 0} (fl : Float F) (reader : PduReader) (r : Result Failure Pdu)
    → is_serious (decode_answer ⦃fl = fl⦄ reader r).failure ≡ is_serious (failure_in r)
unfolding decode_snmp_pdu
decode_answer-serious fl reader (err f) = refl
decode_answer-serious fl reader (ok p) = decode_typed-not_serious fl reader p.type_tag p.value

module _ {F : Type 0} ⦃fl : Float F⦄ where
  -- The error of a query reaches the cycle.
  process_snmp_monitor-failure :
      (m : Monitor F) (r : Reply F) (d : Decoded F)
      → r.snmp ≡ query_outcome d
      → (process_snmp_monitor m r).failure ≡ d.failure
  unfolding process_snmp_monitor
  process_snmp_monitor-failure m r d e = elim (Option-cases d.failure) [
    | inl h ↦ rw (e, h) refl
    | inr (f, h) ↦ elim (Bool-cases (is_unavailable f.kind)) [
      | inl k ↦ rw (e, h, k) refl
      | inr k ↦ rw (e, h, k) refl
    ]
  ]

  -- Where the answer to a monitor's query is the SNMP client's, the query counts as an error of the
  -- sensor exactly if its name has a numeric form and the agent is asked in vain: the session fails,
  -- the request fails, or the answer has no variable. A name without a numeric form, an exception
  -- and a value that is no number do not count.
  pub process_snmp_monitor-serious :
      (c : SnmpClient) (l : Login) (m : Monitor F) (r : Reply F)
      → r.snmp ≡ query_outcome (solve_snmp_query c l m.oid)
      → is_serious (process_snmp_monitor m r).failure ≡ asked_in_vain c l m.oid
  unfolding solve_snmp_query
  process_snmp_monitor-serious c l m r e =
      ap is_serious (process_snmp_monitor-failure m r (solve_snmp_query c l m.oid) e)
      ∙ decode_answer-serious fl c.reader (get_snmp_pdu c l m.oid)
      ∙ get_snmp_pdu-serious c l m.oid
