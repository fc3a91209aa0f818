-- ===== src/Plugins/Redfish/Paths.antt =====
-- internal/monitor/plugins.go: `RedfishPlugin` and a key that the answer does not have.
use redborder_monitor.Base.{◌≡◌, refl, sym, ◌∙◌, Bool, false, ◌||◌, List, [], ◌∷◌, ◌++◌, arith}
use redborder_monitor.Base.Text.{Bytes, codes, same, is_empty}
use redborder_monitor.Base.Float.{Float}
use redborder_monitor.Base.Result.{ok, ◌>>=◌, bind_assoc, bind_congr}
use redborder_monitor.Base.Split.{split}
use redborder_monitor.Model.{Json, null, object, Fields, no_field, field}
use redborder_monitor.Plugins.Outcome.{PluginAnswer, answer}
use redborder_monitor.Plugins.Redfish.{
  RestServer, field_at, step_into, follow_path, print_json, redfish_body, redfish_failure, printed,
}

-- the answer for a key that is not there, by the parts of the path behind it
abbrev pub missing_answer : List Bytes → PluginAnswer
missing_answer [] = answer (codes "<nil>")
missing_answer (next ∷ more) =
    redfish_failure (codes "path key/index '" ++ (next ++ codes "' not found in Redfish JSON"))

module _ {F : Type 0} ⦃fl : Float F⦄ where
  -- A path is followed part by part.
  follow_path-append :
      (ps qs : List Bytes) (v : Json F)
      → follow_path (ps ++ qs) v ≡ (follow_path ps v >>= follow_path qs)
  unfolding follow_path
  follow_path-append [] qs v = refl
  follow_path-append (p ∷ ps) qs v =
      bind_congr (step_into v p) (λ w. follow_path-append ps qs w)
      ∙ sym (bind_assoc (step_into v p) (follow_path ps) (follow_path qs))

  abbrev pub has_key : Bytes → Fields F → Bool
  has_key k no_field = false
  has_key k (field j v fields) = same j k || has_key k fields

  field_at-missing :
      (k : Bytes) (fields : Fields F) → has_key k fields ≡ false → field_at k fields ≡ null
  unfolding field_at
  field_at-missing k no_field h = refl
  field_at-missing k (field j v fields) h = ground (arith, field_at-missing k fields)

  follow_missing :
      (behind : List Bytes) (key : Bytes) (fields : Fields F)
      → has_key key fields ≡ false
      → printed (follow_path behind (field_at key fields)) ≡ missing_answer behind
  unfolding follow_path step_into print_json
  follow_missing [] key fields h = rw (field_at-missing key fields h) refl
  follow_missing (next ∷ more) key fields h = rw (field_at-missing key fields h) refl

  -- Where a path leads to an object that does not have the next key, the plugin answers `<nil>`
  -- without an error if the path ends with that key, and an error if it goes on behind it.
  pub redfish_body-missing_key :
      (server : RestServer F) (path body key : Bytes) (parts behind : List Bytes)
      (root fields : Fields F)
      → is_empty path ≡ false
      → server.decode body ≡ ok root
      → split (codes ".") path ≡ parts ++ (key ∷ behind)
      → follow_path parts (object root) ≡ ok (object fields)
      → has_key key fields ≡ false
      → redfish_body server path body ≡ missing_answer behind
  unfolding follow_path step_into
  redfish_body-missing_key server path body key parts behind root fields p d s f h =
      let k = follow_path-append parts (key ∷ behind) (object root) in
      rw (p, d, s, k, f) (follow_missing behind key fields h)
