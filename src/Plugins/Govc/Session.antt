-- ===== src/Plugins/Govc/Session.antt =====
-- internal/monitor/plugins.go: `getVMwareClient`, `govcPluginInternal` and `GovcPlugin`: the sessions
-- by host and user, which all goroutines share, and the second attempt behind an error of the session.
use redborder_monitor.Base.{
  ℕ, Bool, false, ◌||◌, Option, none, some, [], ◌∷◌, ◌++◌, if◌then◌else◌, ◌==◌,
}
use redborder_monitor.Base.Text.{Bytes, codes, same, is_empty, contains}
use redborder_monitor.Base.Map.{Map, lookup, insert}
use redborder_monitor.Base.Float.{Float}
use redborder_monitor.Base.Result.{Result, ok, err, ◌>>=◌}
use redborder_monitor.Query.{Failure}
use redborder_monitor.Plugins.Outcome.{PluginAnswer}
use redborder_monitor.Plugins.Govc.Data.{Vsphere, govc_failure}
use redborder_monitor.Plugins.Govc.Host.{query_host}
use redborder_monitor.Plugins.Govc.Machine.{query_machine}
use redborder_monitor.Plugins.Govc.Resolve.{
  GovcQuery, Resolved, is_type, choose_target, choose_datacenter, find_datacenter, find_host,
  find_machine,
}

-- A session has the number that its log-in gave it.
pub record GovcSession : Type 0 where
  pub number : ℕ
  pub resolved : Resolved

-- The cache of all goroutines, each of which changes it while it holds its lock. The numbers of the
-- sessions tell them apart.
abbrev pub SessionCache : Type 0
SessionCache = Map GovcSession

-- In each attempt: what the other goroutines have made of the cache before it looks up its session,
-- the log-in, what the open sessions answer, and what the others make of the cache meanwhile.
pub record VmwareWorld : Type 0 where
  pub before : ℕ → SessionCache → SessionCache
  pub log_in : ℕ → Bytes → Bytes → Bytes → Result Bytes ℕ
  pub vsphere : ℕ → ℕ → Vsphere
  pub meanwhile : ℕ → SessionCache → SessionCache

abbrev pub session_key : GovcQuery → Bytes
session_key q = q.host ++ (codes ":" ++ q.username)

-- `delete(govcSessionCache, sessionKey)`
unfoldable pub delete {ℓ} : {V : Type ℓ} → Bytes → Map V → Map V
delete k [] = []
delete k ((j, v) ∷ m) = let rest = delete k m in if same j k then rest else (j, v) ∷ rest

abbrev pub new_session : ℕ → GovcSession
new_session n = record {
  number = n;
  resolved = record { hosts = []; machines = []; datacenters = [] };
}

abbrev pub session_from :
    Option GovcSession
    → VmwareWorld
    → ℕ
    → GovcQuery
    → SessionCache
    → Result Bytes (GovcSession × SessionCache)
session_from (some s) w attempt q cache = ok (s, cache)
session_from none w attempt q cache = w.log_in attempt q.host q.username q.password >>= λ n.
    ok (new_session n, insert (session_key q) (new_session n) cache)

unfoldable pub get_vmware_client :
    VmwareWorld → ℕ → GovcQuery → SessionCache → Result Bytes (GovcSession × SessionCache)
get_vmware_client w attempt q cache = session_from (lookup (session_key q) cache) w attempt q cache

-- What a query has resolved is kept in its session, which the cache shares if it still has it.
abbrev pub share_resolved :
    GovcQuery → ℕ → Resolved → Option GovcSession → SessionCache → SessionCache
share_resolved q number r none cache = cache
share_resolved q number r (some s) cache =
    if s.number == number then insert (session_key q) (record s { resolved = r }) cache else cache

module _ {F : Type 0} (fl : Float F) where
  abbrev pub ask_target :
      Vsphere → GovcQuery → Bytes → Option Bytes × Resolved → PluginAnswer × Resolved
  ask_target v q target (dc, r) =
      if is_type (codes "host") q
      then elim (find_host v dc target r) [
        | err message ↦ (govc_failure message, r)
        | ok (h, found) ↦ (query_host fl v q.metric h, found)
      ]
      else elim (find_machine v dc q target r) [
        | err message ↦ (govc_failure message, r)
        | ok (m, found) ↦ (query_machine fl v q.disk_path q.metric m, found)
      ]

  -- the part behind the log-in
  unfoldable pub run_query : Vsphere → GovcQuery → Resolved → PluginAnswer × Resolved
  run_query v q r = elim (choose_target v q) [
    | err message ↦ (govc_failure message, r)
    | ok target ↦ elim (find_datacenter v (choose_datacenter v q) r) [
      | err message ↦ (govc_failure message, r)
      | ok found ↦ ask_target v q target found
    ]
  ]

  -- The query sees what its session had resolved when it was looked up.
  abbrev pub run_session :
      VmwareWorld
      → ℕ
      → GovcQuery
      → SessionCache
      → Result Bytes (GovcSession × SessionCache)
      → PluginAnswer × SessionCache
  run_session w attempt q cache (err message) =
      (govc_failure (codes "failed to connect to VMware: " ++ message), cache)
  run_session w attempt q cache (ok (s, opened)) =
      let (a, r) = run_query (w.vsphere attempt s.number) q s.resolved in
      let shared = w.meanwhile attempt opened in
      (a, share_resolved q s.number r (lookup (session_key q) shared) shared)

  unfoldable pub govc_plugin_internal :
      VmwareWorld → ℕ → GovcQuery → SessionCache → PluginAnswer × SessionCache
  govc_plugin_internal w attempt q cache =
      if is_empty q.host || is_empty q.username || is_empty q.password
      then (govc_failure (codes "missing credentials/host for govc plugin"), cache)
      else let found = w.before attempt cache in
        run_session w attempt q found (get_vmware_client w attempt q found)

abbrev pub is_session_error : Bytes → Bool
is_session_error e =
    contains e (codes "NotAuthenticated")
    || contains e (codes "session")
    || contains e (codes "unauthorized")
    || contains e (codes "login")
    || contains e (codes "EOF")
    || contains e (codes "connection")
    || contains e (codes "broken pipe")
    || contains e (codes "reset")

abbrev pub failed_session : Option Failure → Bool
failed_session none = false
failed_session (some f) = is_session_error f.message

-- The second attempt is the last, whatever its error is.
unfoldable pub govc_plugin :
    {F : Type 0} → Float F → VmwareWorld → GovcQuery → SessionCache → PluginAnswer × SessionCache
govc_plugin fl w q cache =
    let (a, used) = govc_plugin_internal fl w 1 q cache in
    let again = govc_plugin_internal fl w 2 q (delete (session_key q) used) in
    if failed_session a.failure then again else (a, used)
