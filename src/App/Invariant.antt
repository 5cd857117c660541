-- ===== src/App/Invariant.antt =====
-- What the applet of src/app.rs has started in the background and not told to stop, and that the
-- applet holds it. A server that ends by itself, as when it finds no free port, is not told to stop.
use cosmicdrop.Base.{
  ℕ, ◌==◌, Bool, true, false, ◌&&◌, if◌then◌else◌, List, [], ◌∷◌, ◌++◌, Option, none, some, ◌≡◌,
  refl, ap, ◌∙◌, arith,
}
use cosmicdrop.App.{
  Window, World, Message, popup_closed, surface, page, set_selected_receiver, pick_file, send_file,
  toggle_receive, apply_settings, set_computer_name, set_model, set_interface, scroll_send, tick,
  Effect, browser_started, browser_stopped, server_started, server_stopped, awdl_started,
  awdl_stopped, transfer, surface_task, Started, running, failed_with, Step, default_window,
}
use cosmicdrop.App.Services.{
  then_step, started_browser, stop_discovery, started_server, started_awdl, start_server,
  stopped_awdl, stop_server,
}
use cosmicdrop.App.Transfers.{begin_transfer, begin_with, begin_send, find_receiver}
use cosmicdrop.App.Update.{open_popup, update, same_id, is_send, is_none}
use cosmicdrop.App.Events.{drain_background}
use cosmicdrop.App.Receivers.{HasUniqueIds, drain_browser-HasUniqueIds}
use cosmicdrop.Client.{Receiver}
use cosmicdrop.Config.{AirDropConfig}

-- The browsers, servers and AWDL instances that were started and not told to stop since.
pub record Launched : Type 0 where
  pub browsers : List ℕ
  pub servers : List ℕ
  pub awdls : List ℕ

abbrev pub nothing : Launched
nothing = record { browsers = []; servers = []; awdls = [] }

-- One instance less, the oldest with the number.
unfoldable pub without : ℕ → List ℕ → List ℕ
without n [] = []
without n (m ∷ ms) = let later = without n ms in if m == n then ms else m ∷ later

unfoldable pub apply : Launched → Effect → Launched
apply r (browser_started n) = record r { browsers = r.browsers ++ (n ∷ []) }
apply r (browser_stopped n) = record r { browsers = without n r.browsers }
apply r (server_started n) = record r { servers = r.servers ++ (n ∷ []) }
apply r (server_stopped n) = record r { servers = without n r.servers }
apply r (awdl_started n) = record r { awdls = r.awdls ++ (n ∷ []) }
apply r (awdl_stopped n) = record r { awdls = without n r.awdls }
apply r (transfer config receiver path) = r
apply r (surface_task a) = r

unfoldable pub apply_all : Launched → List Effect → Launched
apply_all r [] = r
apply_all r (effect ∷ effects) = apply_all (apply r effect) effects

abbrev pub held : Option ℕ → List ℕ
held none = []
held (some n) = n ∷ []

abbrev pub is_held : Option ℕ → Bool
is_held none = false
is_held (some n) = true

-- What was started and not told to stop is what the window holds the stop sender or the handle of.
pub record IsSound (w : Window) (r : Launched) : Type 0 where
  pub browser : r.browsers ≡ held w.browser_stop
  pub server : r.servers ≡ held w.server_stop
  pub awdl : r.awdls ≡ held w.awdl
  pub browser_channel : w.browser_rx ≡ w.browser_stop
  pub server_channel : w.server_rx ≡ w.server_stop
  pub server_flag : w.server_running ≡ is_held w.server_stop
  pub ids : HasUniqueIds w.receivers

abbrev pub IsSoundAfter : Launched → Step → Type 0
IsSoundAfter r s = IsSound s.0 (apply_all r s.1)

apply_all-append :
    (r : Launched) (xs ys : List Effect) → apply_all r (xs ++ ys) ≡ apply_all (apply_all r xs) ys
unfolding apply_all
apply_all-append r [] ys = refl
apply_all-append r (x ∷ xs) ys = apply_all-append (apply r x) xs ys

then_step-IsSound :
    (r : Launched) (s : Step) (f : Window → Step)
    → (IsSound s.0 (apply_all r s.1) → IsSoundAfter (apply_all r s.1) (f s.0))
    → IsSoundAfter r s
    → IsSoundAfter r (then_step s f)
then_step-IsSound r s f keep h = rw (apply_all-append r s.1 (f s.0).1) (keep h)

-- A step that depends on a test.
if-IsSound :
    (b : Bool) (s t : Step) (r : Launched)
    → (b ≡ true → IsSoundAfter r s)
    → (b ≡ false → IsSoundAfter r t)
    → IsSoundAfter r (if b then s else t)
if-IsSound true s t r yes_case no_case = yes_case refl
if-IsSound false s t r yes_case no_case = no_case refl

stop_discovery-IsSound :
    (w : Window) (r : Launched)
    → IsSound w r
    → IsSoundAfter r (stop_discovery w) × ((stop_discovery w).0.browser_stop ≡ none)
unfolding stop_discovery apply_all apply without
stop_discovery-IsSound w r h = ground arith

started_browser-IsSound :
    (w : Window) (r : Launched) (s : Started)
    → w.browser_stop ≡ none
    → IsSound w r
    → IsSoundAfter r (started_browser w s)
unfolding started_browser apply_all apply
started_browser-IsSound w r (running n) e h = ground arith
started_browser-IsSound w r (failed_with m) e h = ground arith

started_server-IsSound :
    (world : World) (w : Window) (r : Launched) (s : Started)
    → w.server_stop ≡ none
    → IsSound w r
    → IsSoundAfter r (started_server world w s)
unfolding started_server apply_all apply
started_server-IsSound world w r (running n) e h = ground arith
started_server-IsSound world w r (failed_with m) e h = ground arith

started_awdl-IsSound :
    (w : Window) (r : Launched) (s : Started) → IsSound w r → IsSoundAfter r (started_awdl w s)
unfolding started_awdl apply_all apply without
started_awdl-IsSound w r (running n) h = ground arith
started_awdl-IsSound w r (failed_with m) h = ground arith

stop_server-IsSound : (w : Window) (r : Launched) → IsSound w r → IsSoundAfter r (stop_server w)
unfolding stop_server stopped_awdl apply_all apply without
stop_server-IsSound w r h = ground arith

begin_transfer-IsSound :
    (world : World) (w : Window) (r : Launched) (path : List ℕ) (o : Option Receiver)
    → IsSound w r
    → IsSoundAfter r (begin_transfer world w path o)
unfolding begin_transfer apply_all apply
begin_transfer-IsSound world w r path none h = ground arith
begin_transfer-IsSound world w r path (some x) h = ground arith

begin_with-IsSound :
    (world : World) (w : Window) (r : Launched) (id file : Option (List ℕ))
    → IsSound w r
    → IsSoundAfter r (begin_with world w id file)
unfolding begin_with apply_all
begin_with-IsSound world w r none file h = ground arith
begin_with-IsSound world w r (some id) none h = ground arith
begin_with-IsSound world w r (some id) (some path) h =
    begin_transfer-IsSound world w r path (find_receiver id w.receivers) h

drain_background-IsSound :
    (world : World) (w : Window) (r : Launched) → IsSound w r → IsSound (drain_background world w) r
unfolding drain_background
drain_background-IsSound world w r h =
    ground (arith, drain_browser-HasUniqueIds world.browser_events w.receivers h.ids)

start_server-IsSound :
    (world : World) (w : Window) (r : Launched)
    → w.server_running ≡ false
    → IsSound w r
    → IsSoundAfter r (start_server world w)
unfolding start_server
start_server-IsSound world w r stopped h =
    then_step-IsSound r (started_server world w world.server) (λ v. started_awdl v world.awdl)
      (started_awdl-IsSound (started_server world w world.server).0
        (apply_all r (started_server world w world.server).1) world.awdl)
      (started_server-IsSound world w r world.server (ground arith) h)

closed-IsSound :
    (v : Window) (r : Launched)
    → IsSound v r
    → IsSoundAfter r (if v.server_running then stop_server v else (v, []))
unfolding apply_all
closed-IsSound v r h =
    if-IsSound v.server_running (stop_server v) (v, []) r (λ e. stop_server-IsSound v r h) (λ e. h)

-- Handling any message, whatever the world answers, keeps this.
pub update-IsSound :
    (world : World) (w : Window) (message : Message) (r : Launched)
    → IsSound w r
    → IsSoundAfter r (update world w message)
unfolding update apply_all apply begin_send
update-IsSound world w (popup_closed id) r h =
    let v = record w { popup = if same_id w.popup id then none else w.popup } in
    let hv : IsSound v r = ground arith in
    then_step-IsSound r (stop_discovery v)
      (λ u. if u.server_running then stop_server u else (u, []))
      (closed-IsSound (stop_discovery v).0 (apply_all r (stop_discovery v).1))
      (stop_discovery-IsSound v r hv).0
update-IsSound world w (surface a) r h = h
update-IsSound world w (page p) r h =
    let v = record w { page = p } in
    let hv : IsSound v r = ground arith in
    if-IsSound (is_send p && is_none w.browser_rx) (started_browser v world.browser) (v, []) r
      (λ e. started_browser-IsSound v r world.browser (ground arith) hv) (λ e. hv)
update-IsSound world w (set_selected_receiver id) r h = ground arith
update-IsSound world w pick_file r h = ground arith
update-IsSound world w send_file r h =
    begin_with-IsSound world w r w.selected_receiver w.selected_file h
update-IsSound world w toggle_receive r h =
    if-IsSound w.server_running (stop_server w) (start_server world w) r
      (λ e. stop_server-IsSound w r h) (λ e. start_server-IsSound world w r e h)
update-IsSound world w apply_settings r h = ground arith
update-IsSound world w (set_computer_name v) r h = ground arith
update-IsSound world w (set_model v) r h = ground arith
update-IsSound world w (set_interface v) r h = ground arith
update-IsSound world w scroll_send r h =
    then_step-IsSound r (stop_discovery w) (λ v. started_browser v world.browser)
      (started_browser-IsSound (stop_discovery w).0 (apply_all r (stop_discovery w).1) world.browser
        (stop_discovery-IsSound w r h).1)
      (stop_discovery-IsSound w r h).0
update-IsSound world w tick r h = drain_background-IsSound world w r h

-- What happens in a session: a message, with what the world answers, or a popup that opens.
pub data Happening : Type 0 where
  sent : World → Message → Happening
  opened : ℕ → Happening

abbrev pub after : Happening → Window → Step
after (sent world message) w = update world w message
after (opened id) w = (open_popup id w, [])

after-IsSound :
    (e : Happening) (w : Window) (r : Launched) → IsSound w r → IsSoundAfter r (after e w)
unfolding open_popup apply_all
after-IsSound (sent world message) w r h = update-IsSound world w message r h
after-IsSound (opened id) w r h = ground arith

unfoldable pub session : Window × Launched → List Happening → Window × Launched
session s [] = s
session s (e ∷ happenings) = session ((after e s.0).0, apply_all s.1 (after e s.0).1) happenings

session_keeps :
    (happenings : List Happening) (s : Window × Launched)
    → IsSound s.0 s.1
    → IsSound (session s happenings).0 (session s happenings).1
unfolding session
session_keeps [] s h = h
session_keeps (e ∷ happenings) s h =
    session_keeps happenings ((after e s.0).0, apply_all s.1 (after e s.0).1)
      (after-IsSound e s.0 s.1 h)

default_window-IsSound : (config : AirDropConfig) → IsSound (default_window config) nothing
unfolding default_window
default_window-IsSound config = ground arith

-- The session of an applet from its start.
abbrev pub from_start : AirDropConfig → List Happening → Window × Launched
from_start config happenings = session (default_window config, nothing) happenings

-- The effects of closing the popup.
abbrev pub closing : World → ℕ → Window × Launched → Launched
closing world id s = apply_all s.1 (update world s.0 (popup_closed id)).1

closed_stops :
    (world : World) (id : ℕ) (w : Window)
    → w.server_running ≡ is_held w.server_stop
    → ((update world w (popup_closed id)).0.browser_stop ≡ none)
      × ((update world w (popup_closed id)).0.server_stop ≡ none)
unfolding update stop_discovery stop_server stopped_awdl
closed_stops world id w h = ground arith

-- After any messages and opened popups, and whatever the world answers, the window holds the stop
-- sender or the handle of exactly those browsers, servers and AWDL instances that were started and
-- not told to stop since, and these are at most one of each. The flag `server_running` says whether
-- there is such a server, which may have ended by itself. A stop sender is there together with its
-- event receiver, and no two receivers in the list have one id. Closing the popup then leaves no
-- browser and no server that was not told to stop.
pub from_start-IsSound :
    (config : AirDropConfig) (happenings : List Happening) (world : World) (id : ℕ)
    → IsSound (from_start config happenings).0 (from_start config happenings).1
      × ((closing world id (from_start config happenings)).browsers ≡ [])
      × ((closing world id (from_start config happenings)).servers ≡ [])
from_start-IsSound config happenings world id =
    let s = from_start config happenings in
    let h : IsSound s.0 s.1 =
      session_keeps happenings (default_window config, nothing) (default_window-IsSound config) in
    let kept = update-IsSound world s.0 (popup_closed id) s.1 h in
    let stops = closed_stops world id s.0 h.server_flag in
    (h, kept.browser ∙ ap held stops.0, kept.server ∙ ap held stops.1)
