-- ===== src/App/Events.antt =====
-- The events that `drain_background` of src/app.rs takes from the channels.
use cosmicdrop.Base.{ℕ, if◌then◌else◌, List, [], ◌∷◌, ◌++◌, Option, none, some, bytes_eq}
use cosmicdrop.Client.{Receiver}
use cosmicdrop.Server.{ServerEvent, start, ask, accepted, receive_progress, received, error}
use cosmicdrop.Text.{codes}
use cosmicdrop.App.{BrowserEvent, Window, World, found, removed}

-- A found receiver takes the place of the one with its id, or comes last.
unfoldable pub put_receiver : Receiver → List Receiver → List Receiver
put_receiver receiver [] = receiver ∷ []
put_receiver receiver (r ∷ receivers) =
    let later = put_receiver receiver receivers in
    if bytes_eq r.id receiver.id then receiver ∷ receivers else r ∷ later

-- `retain(|r| r.id != id)`.
unfoldable pub remove_receiver : List ℕ → List Receiver → List Receiver
remove_receiver id [] = []
remove_receiver id (r ∷ receivers) =
    let later = remove_receiver id receivers in if bytes_eq r.id id then later else r ∷ later

unfoldable pub drain_browser : List Receiver → List BrowserEvent → List Receiver
drain_browser receivers [] = receivers
drain_browser receivers (found receiver ∷ events) =
    drain_browser (put_receiver receiver receivers) events
drain_browser receivers (removed id ∷ events) = drain_browser (remove_receiver id receivers) events

unfoldable pub server_line : (ServerEvent → List ℕ) → ServerEvent → List ℕ
server_line debug (ask sender_name file_name file_size) =
    codes "Ask: " ++ (sender_name ++ (codes " wants to send " ++ file_name))
server_line debug accepted = codes "Accepted."
server_line debug (received file_name) = codes "Saved: " ++ file_name
server_line debug (error e) = codes "Error: " ++ e
server_line debug start = codes "Event: " ++ debug start
server_line debug (receive_progress f b t) = codes "Event: " ++ debug (receive_progress f b t)

unfoldable pub drain_server :
    (ServerEvent → List ℕ) → List (List ℕ) → List ServerEvent → List (List ℕ)
drain_server debug messages [] = messages
drain_server debug messages (event ∷ events) =
    drain_server debug (messages ++ (server_line debug event ∷ [])) events

-- A channel that is there gives its events, another one nothing.
abbrev pub if_some {ℓ} : {A : Type ℓ} → Option ℕ → A → A → A
if_some none changed unchanged = unchanged
if_some (some n) changed unchanged = changed

unfoldable pub drain_background : World → Window → Window
drain_background world w = record w {
  send_messages = if_some w.send_rx (w.send_messages ++ world.lines) w.send_messages;
  receivers = if_some w.browser_rx (drain_browser w.receivers world.browser_events) w.receivers;
  receive_messages =
      if_some w.server_rx (drain_server world.debug w.receive_messages world.server_events)
        w.receive_messages;
}
