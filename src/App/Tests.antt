-- ===== src/App/Tests.antt =====
-- The applet at short sessions.
use cosmicdrop.Base.{false, List, [], ◌∷◌, none, ◌≡◌, refl}
use cosmicdrop.App.{
  Window, World, Message, page, toggle_receive, send_file, popup_closed, send, receive, running,
  failed_with, default_window,
}
use cosmicdrop.App.Update.{update}
use cosmicdrop.App.Transfers.{transfer_line, answered, failed}
use cosmicdrop.App.Invariant.{
  IsSound, from_start, from_start-IsSound, closing, apply_all, Happening, sent, opened, session,
  Launched,
}
use cosmicdrop.Config.Samples.{sample_config}
use cosmicdrop.Text.{codes}

-- A browser and AWDL start, a server does not.
abbrev world : World
world = record {
  browser = running 1;
  server = failed_with (codes "no address");
  server_port = 8771;
  awdl = running 2;
  picked = none;
  lines = [];
  browser_events = [];
  server_events = [];
  channel = 3;
  debug = λ e. [];
}

abbrev messages : List Happening
messages = opened 5 ∷ sent world (page send) ∷ sent world toggle_receive ∷ []

from_start-IsSound_example :
    IsSound (from_start sample_config messages).0 (from_start sample_config messages).1
    × ((closing world 5 (from_start sample_config messages)).browsers ≡ [])
    × ((closing world 5 (from_start sample_config messages)).servers ≡ [])
from_start-IsSound_example = from_start-IsSound sample_config messages world 5

-- AWDL goes on behind a closed popup, where the server did not start.
awdl_stays : (closing world 5 (from_start sample_config messages)).awdls ≡ 2 ∷ []
unfolding update session cosmicdrop.App.Update.open_popup default_window apply_all
    cosmicdrop.App.Invariant.apply cosmicdrop.App.Services.started_browser
    cosmicdrop.App.Services.started_server cosmicdrop.App.Services.started_awdl
    cosmicdrop.App.Services.start_server cosmicdrop.App.Services.stop_discovery
    cosmicdrop.App.Services.stop_server cosmicdrop.App.Invariant.without
awdl_stays = refl

nothing_selected :
    (update world (default_window sample_config) send_file).0.send_messages
    ≡ codes "No receiver selected" ∷ []
unfolding update default_window cosmicdrop.App.Transfers.begin_send
    cosmicdrop.App.Transfers.begin_with
nothing_selected = refl

declined : transfer_line (answered false) (failed []) ≡ codes "Receiver declined."
unfolding transfer_line
declined = refl
