-- ===== src/App/Services.antt =====
-- Starting and stopping the browser, the server and AWDL in src/app.rs.
use cosmicdrop.Base.{ℕ, true, false, List, [], ◌∷◌, ◌++◌, Option, none, some}
use cosmicdrop.Text.{codes, decimal}
use cosmicdrop.App.{
  Effect, Started, Step, Window, World, awdl_started, awdl_stopped, browser_started,
  browser_stopped, failed_with, running, say_receive, say_send, server_started, server_stopped,
}

unfoldable pub started_browser : Window → Started → Step
started_browser w (running n) = (
  record w { browser_stop = some n; browser_rx = some n; receivers = [] },
  browser_started n ∷ [],
)
started_browser w (failed_with e) = (say_send w (codes "Discovery error: " ++ e), [])

abbrev pub start_discovery : World → Window → Step
start_discovery world w = started_browser w world.browser

abbrev pub stop_signal : (ℕ → Effect) → Option ℕ → List Effect
stop_signal effect none = []
stop_signal effect (some n) = effect n ∷ []

unfoldable pub stop_discovery : Window → Step
stop_discovery w = (
  record w { browser_stop = none; browser_rx = none },
  stop_signal browser_stopped w.browser_stop,
)

unfoldable pub started_server : World → Window → Started → Step
started_server world w (running n) = (
  say_receive (record w { server_stop = some n; server_rx = some n; server_running = true })
      (codes "Listening on port " ++ (decimal world.server_port ++ codes "...")),
  server_started n ∷ [],
)
started_server world w (failed_with e) = (say_receive w (codes "Failed to start: " ++ e), [])

-- The new instance takes the place of an old one, which its `Drop` stops.
unfoldable pub started_awdl : Window → Started → Step
started_awdl w (running n) = (
  record (say_receive w (codes "AWDL started.")) { awdl = some n },
  awdl_started n ∷ stop_signal awdl_stopped w.awdl,
)
started_awdl w (failed_with e) = (say_receive w (codes "AWDL unavailable: " ++ e), [])

abbrev pub then_step : Step → (Window → Step) → Step
then_step s f = ((f s.0).0, s.1 ++ (f s.0).1)

unfoldable pub start_server : World → Window → Step
start_server world w =
    then_step (started_server world w world.server) (λ v. started_awdl v world.awdl)

unfoldable pub stopped_awdl : Window → Option ℕ → Step
stopped_awdl w none = (w, [])
stopped_awdl w (some n) =
    (say_receive (record w { awdl = none }) (codes "AWDL stopped."), awdl_stopped n ∷ [])

unfoldable pub stop_server : Window → Step
stop_server w =
    let v = record w { server_stop = none; server_rx = none; server_running = false } in
    let s = stopped_awdl v w.awdl in
    (say_receive s.0 (codes "Stopped receiving."), stop_signal server_stopped w.server_stop ++ s.1)
