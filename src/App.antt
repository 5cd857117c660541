-- ===== src/App.antt =====
-- src/app.rs: the state of the applet and its messages. What starting a browser, a server or AWDL
-- gives, the file that is picked and the events in the channels are arguments; what the applet
-- starts and stops is a list of effects. The views are left out.
pub mod Services
pub mod Events
pub mod Transfers
pub mod Update
pub mod Receivers
pub mod Invariant
mod Tests
use cosmicdrop.Base.{
  ℕ, ◌==◌, Bool, true, false, not, ◌&&◌, ◌||◌, if◌then◌else◌, List, [], ◌∷◌, ◌++◌, Option, none,
  some, bytes_eq,
}
use cosmicdrop.Client.{Receiver}
use cosmicdrop.Config.{AirDropConfig}
use cosmicdrop.Server.{ServerEvent, start, ask, accepted, receive_progress, received, error}
use cosmicdrop.Text.{codes, decimal}

pub data Page : Type 0 where
  send : Page
  receive : Page

pub data Message : Type 0 where
  popup_closed : ℕ → Message
  surface : ℕ → Message
  page : Page → Message
  set_selected_receiver : List ℕ → Message
  pick_file : Message
  send_file : Message
  toggle_receive : Message
  apply_settings : Message
  set_computer_name : List ℕ → Message
  set_model : List ℕ → Message
  set_interface : List ℕ → Message
  scroll_send : Message
  tick : Message

pub data BrowserEvent : Type 0 where
  found : Receiver → BrowserEvent
  removed : List ℕ → BrowserEvent

-- A browser, a server and an AWDL instance are known by a number, a stop sender and an event
-- receiver by the number of what they belong to.
pub record Window : Type 0 where
  pub popup : Option ℕ
  pub page : Page
  pub config : AirDropConfig
  pub browser_stop : Option ℕ
  pub browser_rx : Option ℕ
  pub receivers : List Receiver
  pub selected_receiver : Option (List ℕ)
  pub selected_file : Option (List ℕ)
  pub send_rx : Option ℕ
  pub send_messages : List (List ℕ)
  pub server_stop : Option ℕ
  pub server_rx : Option ℕ
  pub server_running : Bool
  pub receive_messages : List (List ℕ)
  pub awdl : Option ℕ
  pub settings_name : List ℕ
  pub settings_model : List ℕ
  pub settings_interface : List ℕ

-- What the applet does to the world: a stop signal, a started or a stopped instance, a transfer.
pub data Effect : Type 0 where
  browser_started : ℕ → Effect
  browser_stopped : ℕ → Effect
  server_started : ℕ → Effect
  server_stopped : ℕ → Effect
  awdl_started : ℕ → Effect
  awdl_stopped : ℕ → Effect
  transfer : AirDropConfig → Receiver → List ℕ → Effect
  surface_task : ℕ → Effect

-- The result of starting: the number of what runs now, or the text of the error.
pub data Started : Type 0 where
  running : ℕ → Started
  failed_with : List ℕ → Started

-- What the world answers while a message is handled: the results of starting, the port of the
-- server, the file dialog, the events in the channels, a new channel and the debug form of an event.
pub record World : Type 0 where
  pub browser : Started
  pub server : Started
  pub server_port : ℕ
  pub awdl : Started
  pub picked : Option (List ℕ)
  pub lines : List (List ℕ)
  pub browser_events : List BrowserEvent
  pub server_events : List ServerEvent
  pub channel : ℕ
  pub debug : ServerEvent → List ℕ

abbrev pub Step : Type 0
Step = Window × List Effect

abbrev pub say_send : Window → List ℕ → Window
say_send w line = record w { send_messages = w.send_messages ++ (line ∷ []) }

abbrev pub say_receive : Window → List ℕ → Window
say_receive w line = record w { receive_messages = w.receive_messages ++ (line ∷ []) }

-- `Window::default`, for a configuration that was read.
unfoldable pub default_window : AirDropConfig → Window
default_window config = record {
  popup = none;
  page = send;
  config = config;
  browser_stop = none;
  browser_rx = none;
  receivers = [];
  selected_receiver = none;
  selected_file = none;
  send_rx = none;
  send_messages = [];
  server_stop = none;
  server_rx = none;
  server_running = false;
  receive_messages = [];
  awdl = none;
  settings_name = config.computer_name;
  settings_model = config.computer_model;
  settings_interface = config.interface;
}
