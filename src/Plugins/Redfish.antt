-- ===== src/Plugins/Redfish.antt =====
-- internal/monitor/plugins.go: `RedfishPlugin`, its dot path through the decoded answer and the
-- printing of what stands there. The server and the decoder are the argument `RestServer`.
pub mod Paths
use redborder_monitor.Base.{
  ℕ, ◌≡◌, Bool, true, false, ◌||◌, ◌&&◌, Option, none, some, List, [], ◌∷◌, ◌++◌, ltb, leb, ◌==◌,
  if◌then◌else◌, get_elem?, length,
}
use redborder_monitor.Base.Text.{Bytes, codes, same, is_empty}
use redborder_monitor.Base.Int.{ℤ, pos, negsuc}
use redborder_monitor.Base.Decimal.{format_ℕ, format_ℤ, parse_int}
use redborder_monitor.Base.Float.{Float}
use redborder_monitor.Base.Result.{Result, ok, err, ◌>>=◌}
use redborder_monitor.Base.Split.{split, join}
use redborder_monitor.Model.{
  Json, null, bool, number, int, text, array, object, Items, no_item, item, Fields, no_field, field,
  Monitor, Sensor,
}
use redborder_monitor.Params.{get_string_param}
use redborder_monitor.Plugins.Outcome.{PluginAnswer, answer, failed}

pub record RestRequest : Type 0 where
  pub url : Bytes
  -- user name and password, where a user name is set
  pub auth : Option (Bytes × Bytes)

pub record RestResponse : Type 0 where
  pub status : ℕ
  pub body : Result Bytes Bytes

pub record RestServer (F : Type 0) : Type 0 where
  pub new_request : Bytes → Option Bytes
  pub send : RestRequest → Result Bytes RestResponse
  -- encoding/json, into a map
  pub decode : Bytes → Result Bytes (Fields F)

-- the order of Go's `<` on strings
abbrev pub less_eq : Bytes → Bytes → Bool
less_eq [] t = true
less_eq (c ∷ s) [] = false
less_eq (c ∷ s) (d ∷ t) = ltb c d || (c == d && less_eq s t)

abbrev pub insert_sorted : Bytes → Bytes → List (Bytes × Bytes) → List (Bytes × Bytes)
insert_sorted k v [] = (k, v) ∷ []
insert_sorted k v ((j, w) ∷ m) =
    let rest = insert_sorted k v m in if less_eq k j then (k, v) ∷ (j, w) ∷ m else (j, w) ∷ rest

abbrev pub print_entries : List (Bytes × Bytes) → List Bytes
print_entries [] = []
print_entries ((k, v) ∷ m) = (k ++ (codes ":" ++ v)) ∷ print_entries m

abbrev pub index_error : Bytes → Bytes
index_error part = codes "array index '" ++ (part ++ codes "' invalid or out of bounds")

abbrev pub redfish_failure : Bytes → PluginAnswer
redfish_failure message = failed (codes "0") message

module _ {F : Type 0} ⦃fl : Float F⦄ where
  -- fmt's %v of a decoded value; the entries of a map stand in the order of their keys
  unfoldable mutual
    pub print_json : Json F → Bytes
    print_json null = codes "<nil>"
    print_json (bool true) = codes "true"
    print_json (bool false) = codes "false"
    print_json (number x) = fl.format_v x
    print_json (int i) = format_ℤ i
    print_json (text s) = s
    print_json (array items) = codes "[" ++ (join (codes " ") (print_items items) ++ codes "]")
    print_json (object fields) =
        codes "map[" ++ (join (codes " ") (print_entries (print_fields fields)) ++ codes "]")

    pub print_items : Items F → List Bytes
    print_items no_item = []
    print_items (item v items) = print_json v ∷ print_items items

    pub print_fields : Fields F → List (Bytes × Bytes)
    print_fields no_field = []
    print_fields (field k v fields) = insert_sorted k (print_json v) (print_fields fields)

  -- `m[part]`: a key that is not there gives nil
  unfoldable pub field_at : Bytes → Fields F → Json F
  field_at k no_field = null
  field_at k (field j v fields) = if same j k then v else field_at k fields

  unfoldable pub item_at : ℕ → Items F → Option (Json F)
  item_at i no_item = none
  item_at i (item v items) = elim i [ ℕ.zero ↦ some v | ℕ.suc j ↦ item_at j items ]

  abbrev pub item_or_error : Bytes → Option (Json F) → Result Bytes (Json F)
  item_or_error part none = err (index_error part)
  item_or_error part (some v) = ok v

  -- strconv.Atoi with the test of its bounds
  abbrev pub index_items : Bytes → Items F → Option ℤ → Result Bytes (Json F)
  index_items part items (some (pos i)) = item_or_error part (item_at i items)
  index_items part items _ = err (index_error part)

  unfoldable pub step_into : Json F → Bytes → Result Bytes (Json F)
  step_into (object fields) part = ok (field_at part fields)
  step_into (array items) part = index_items part items (parse_int part)
  step_into _ part = err (codes "path key/index '" ++ (part ++ codes "' not found in Redfish JSON"))

  unfoldable pub follow_path : List Bytes → Json F → Result Bytes (Json F)
  follow_path [] v = ok v
  follow_path (part ∷ parts) v = step_into v part >>= follow_path parts

  abbrev pub printed : Result Bytes (Json F) → PluginAnswer
  printed (ok v) = answer (print_json v)
  printed (err message) = redfish_failure message

  abbrev pub redfish_body : RestServer F → Bytes → Bytes → PluginAnswer
  redfish_body server path body =
      if is_empty path
      then answer body
      else printed
          (server.decode body >>= λ fields. follow_path (split (codes ".") path) (object fields))

  abbrev pub body_answer : RestServer F → Bytes → Result Bytes Bytes → PluginAnswer
  body_answer server path (err message) = redfish_failure message
  body_answer server path (ok body) = redfish_body server path body

  abbrev pub redfish_response : RestServer F → Bytes → Result Bytes RestResponse → PluginAnswer
  redfish_response server path (err message) = redfish_failure message
  redfish_response server path (ok r) =
      if ltb r.status 200 || leb 300 r.status
      then redfish_failure (codes "redfish API returned status " ++ format_ℕ r.status)
      else body_answer server path r.body

  abbrev pub redfish_request : RestServer F → Bytes → RestRequest → Option Bytes → PluginAnswer
  redfish_request server path r (some message) = redfish_failure message
  redfish_request server path r none = redfish_response server path (server.send r)

  abbrev pub redfish_auth : Monitor F → Option (Bytes × Bytes)
  redfish_auth m =
      let username = get_string_param m.params (codes "username") [] in
      if is_empty username
      then none
      else some (username, get_string_param m.params (codes "password") [])

  unfoldable pub redfish_plugin : RestServer F → Sensor F → Monitor F → PluginAnswer
  redfish_plugin server s m =
      let host = get_string_param m.params (codes "host") s.sensor_ip in
      let path = get_string_param m.params (codes "path") (codes "/redfish/v1/") in
      let url = codes "https://" ++ (host ++ path) in
      if is_empty host
      then redfish_failure (codes "missing host for Redfish plugin")
      else redfish_request server (get_string_param m.params (codes "json_path") [])
          (record { url = url; auth = redfish_auth m }) (server.new_request url)
