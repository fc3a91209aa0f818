-- ===== src/Plugins/Govc/Retry.antt =====
-- internal/monitor/plugins.go: the session that `GovcPlugin` leaves behind a second attempt.
use mathlib.Core.Path.{subst}
use redborder_monitor.Base.{
  Option, sym, ◌∙◌, if_either, ◌==◌, ℕ, ◌≡◌, refl, inl, inr, true, ◌||◌, none, some, [], ◌∷◌, arith,
  Bool-cases,
}
use redborder_monitor.Base.Text.{Bytes, is_empty}
use redborder_monitor.Base.Map.{Map, lookup, insert, lookup-insert_self}
use redborder_monitor.Base.Float.{Float}
use redborder_monitor.Base.Result.{Result, ok, err, ◌>>=◌}
use redborder_monitor.Plugins.Outcome.{PluginAnswer}
use redborder_monitor.Plugins.Govc.Resolve.{GovcQuery, Resolved}
use redborder_monitor.Plugins.Govc.Session.{
  share_resolved, session_from, GovcSession, VmwareWorld, SessionCache, session_key, delete,
  get_vmware_client, new_session, run_session, govc_plugin_internal, failed_session, govc_plugin,
}

lookup-delete_self {ℓ} : {V : Type ℓ} (k : Bytes) (m : Map V) → lookup k (delete k m) ≡ none
unfolding lookup delete
lookup-delete_self k [] = refl
lookup-delete_self k ((j, v) ∷ m) = ground (arith, lookup-delete_self k m)

-- the session that the cache has for the query, if there is one, is among these
abbrev pub HasOnly : (ℕ → Type 0) → GovcQuery → SessionCache → Type 0
HasOnly New q cache = (s : GovcSession) → lookup (session_key q) cache ≡ some s → New s.number

-- In an attempt, the sessions that are opened are among these: the other goroutines put no other into
-- the cache, before the attempt or meanwhile, and the attempt's own log-in gives one.
pub record OpensOnly (New : ℕ → Type 0) (w : VmwareWorld) (attempt : ℕ) (q : GovcQuery)
    : Type 0 where
  pub before : (cache : SessionCache) → HasOnly New q cache → HasOnly New q (w.before attempt cache)
  pub meanwhile :
      (cache : SessionCache) → HasOnly New q cache → HasOnly New q (w.meanwhile attempt cache)
  pub own : (n : ℕ) → w.log_in attempt q.host q.username q.password ≡ ok n → New n

some_inj : {A : Type 0} {x y : A} → some x ≡ some y → x ≡ y
some_inj e = cc e

HasOnly-insert :
    (New : ℕ → Type 0) (q : GovcQuery) (s : GovcSession) (cache : SessionCache)
    → New s.number
    → HasOnly New q (insert (session_key q) s cache)
HasOnly-insert New q s cache k t e =
    let found = some_inj (sym (lookup-insert_self (session_key q) s cache) ∙ e) in
    subst (λ (x : GovcSession). New x.number) found k

HasOnly-share_resolved :
    (New : ℕ → Type 0) (q : GovcQuery) (n : ℕ) (r : Resolved) (o : Option GovcSession)
    (cache : SessionCache)
    → lookup (session_key q) cache ≡ o
    → HasOnly New q cache
    → HasOnly New q (share_resolved q n r o cache)
HasOnly-share_resolved New q n r none cache e h = h
HasOnly-share_resolved New q n r (some s) cache e h = elim (Bool-cases (s.number == n)) [
  | inl p ↦ rw p (HasOnly-insert New q (record s { resolved = r }) cache (h s e))
  | inr p ↦ rw p h
]

-- the session of the attempt, and the cache behind the log-in
abbrev pub UsesOnly : (ℕ → Type 0) → GovcQuery → Result Bytes (GovcSession × SessionCache) → Type 0
UsesOnly New q (err message) = Unit
UsesOnly New q (ok (s, cache)) = New s.number × HasOnly New q cache

module _ (New : ℕ → Type 0) {F : Type 0} (fl : Float F) (w : VmwareWorld) (attempt : ℕ)
    (q : GovcQuery) (opens : OpensOnly New w attempt q) where
  session_from-UsesOnly :
      (cache : SessionCache) (o : Option GovcSession)
      → lookup (session_key q) cache ≡ o
      → HasOnly New q cache
      → UsesOnly New q (session_from o w attempt q cache)
  session_from-UsesOnly cache (some s) e h = (h s e, h)
  session_from-UsesOnly cache none e h =
      logged_in (w.log_in attempt q.host q.username q.password) refl
    where
      logged_in :
          (r : Result Bytes ℕ)
          → w.log_in attempt q.host q.username q.password ≡ r
          → UsesOnly New q
              (r >>= λ n. ok (new_session n, insert (session_key q) (new_session n) cache))
      logged_in (err message) k = tt
      logged_in (ok n) k =
          let new = opens.own n k in (new, HasOnly-insert New q (new_session n) cache new)

  run_session-HasOnly :
      (cache : SessionCache) (r : Result Bytes (GovcSession × SessionCache))
      → HasOnly New q cache
      → UsesOnly New q r
      → HasOnly New q (run_session fl w attempt q cache r).1
  run_session-HasOnly cache (err message) h u = h
  run_session-HasOnly cache (ok (s, opened)) h u =
      HasOnly-share_resolved New q s.number _ _ (w.meanwhile attempt opened) refl
        (opens.meanwhile opened u.1)

  govc_plugin_internal-HasOnly :
      (cache : SessionCache)
      → HasOnly New q cache
      → HasOnly New q (govc_plugin_internal fl w attempt q cache).1
  unfolding govc_plugin_internal get_vmware_client
  govc_plugin_internal-HasOnly cache h =
      let k = opens.before cache h in
      if_either (λ (r : PluginAnswer × SessionCache). HasOnly New q r.1)
        (is_empty q.host || is_empty q.username || is_empty q.password) h
        (run_session-HasOnly (w.before attempt cache) _ k
          (session_from-UsesOnly (w.before attempt cache) _ refl k))

-- Let the first attempt fail with an error of the session, and let `New` hold of the sessions that
-- the second attempt logs in and that other goroutines put into the cache behind the deletion. Then
-- the second attempt asks a new session, if it gets one, and the session that is kept afterwards for
-- the host and the user, if there is one, is new.
pub govc_plugin-HasOnly :
    (New : ℕ → Type 0) {F : Type 0} (fl : Float F) (w : VmwareWorld) (q : GovcQuery)
    (cache : SessionCache)
    → OpensOnly New w 2 q
    → failed_session (govc_plugin_internal fl w 1 q cache).0.failure ≡ true
    → let deleted = delete (session_key q) (govc_plugin_internal fl w 1 q cache).1 in
      UsesOnly New q (get_vmware_client w 2 q (w.before 2 deleted))
      × HasOnly New q (govc_plugin fl w q cache).1
unfolding govc_plugin get_vmware_client
govc_plugin-HasOnly New fl w q cache opens h =
    let deleted = delete (session_key q) (govc_plugin_internal fl w 1 q cache).1 in
    let none_left : HasOnly New q deleted =
      λ s e. cc (e, lookup-delete_self (session_key q) (govc_plugin_internal fl w 1 q cache).1) in
    (
      session_from-UsesOnly New fl w 2 q opens (w.before 2 deleted) _ refl
          (opens.before deleted none_left),
      rw h (govc_plugin_internal-HasOnly New fl w 2 q opens deleted none_left),
    )
