-- ===== src/Process/Listener.antt =====
-- cmd/redborder-monitor/main.go: the status socket at a reload.
use redborder_monitor.Base.{◌≡◌, refl, ◌∙◌, List, [], ◌∷◌}
use redborder_monitor.Base.Text.{Bytes, same_refl}
use redborder_monitor.Base.Result.{Result, ok, err}
use redborder_monitor.Model.{Config}
use redborder_monitor.Process.{IpcHost, Process, path_or, update_listener, reload_config}

module _ {F : Type 0} (host : IpcHost) where
  reload_config-listener :
      (loaded : Result Bytes (Config F)) (p : Process F)
      → (reload_config host loaded p).listener ≡ p.listener
  unfolding reload_config update_listener
  reload_config-listener (err message) p = refl
  reload_config-listener (ok new) p = rw (same_refl (path_or host new.conf.ipc_socket_path)) refl

  -- the reloads one after the other
  unfoldable pub reload_all : List (Result Bytes (Config F)) → Process F → Process F
  reload_all [] p = p
  reload_all (loaded ∷ more) p = reload_all more (reload_config host loaded p)

  -- However often the configuration is reloaded, and whatever socket paths the new files name, the
  -- process listens on the socket that it opened at its start.
  pub reload_all-listener :
      (loads : List (Result Bytes (Config F))) (p : Process F)
      → (reload_all loads p).listener ≡ p.listener
  unfolding reload_all
  reload_all-listener [] p = refl
  reload_all-listener (loaded ∷ more) p =
      reload_all-listener more (reload_config host loaded p) ∙ reload_config-listener loaded p
