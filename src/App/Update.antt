-- ===== src/App/Update.antt =====
-- `update` of src/app.rs, and the popup that its view opens.
use cosmicdrop.Base.{
  ℕ, ◌==◌, Bool, true, false, ◌&&◌, if◌then◌else◌, List, [], ◌∷◌, Option, none, some,
}
use cosmicdrop.App.{
  Message, Page, Step, Window, World, apply_settings, page, pick_file, popup_closed, receive,
  scroll_send, send, send_file, set_computer_name, set_interface, set_model, set_selected_receiver,
  surface, surface_task, tick, toggle_receive,
}
use cosmicdrop.App.Services.{start_discovery, start_server, stop_discovery, stop_server, then_step}
use cosmicdrop.App.Events.{drain_background}
use cosmicdrop.App.Transfers.{begin_send}

abbrev pub same_id : Option ℕ → ℕ → Bool
same_id none id = false
same_id (some n) id = n == id

abbrev pub is_send : Page → Bool
is_send send = true
is_send receive = false

abbrev pub is_none : Option ℕ → Bool
is_none none = true
is_none (some n) = false

abbrev pub or_picked : Option (List ℕ) → Option (List ℕ) → Option (List ℕ)
or_picked none old = old
or_picked (some path) old = some path

unfoldable pub update : World → Window → Message → Step
unfolding stop_discovery stop_server start_server drain_background begin_send
update world w (popup_closed id) =
    then_step (stop_discovery (record w { popup = if same_id w.popup id then none else w.popup }))
      (λ v. if v.server_running then stop_server v else (v, []))
update world w (surface a) = (w, surface_task a ∷ [])
update world w (page p) =
    let v = record w { page = p } in
    if is_send p && is_none w.browser_rx then start_discovery world v else (v, [])
update world w (set_selected_receiver id) = (record w { selected_receiver = some id }, [])
update world w pick_file = (record w { selected_file = or_picked world.picked w.selected_file }, [])
update world w send_file = begin_send world w
update world w toggle_receive = if w.server_running then stop_server w else start_server world w
update world w apply_settings = (
  record w {
    config = record w.config {
      computer_name = w.settings_name;
      computer_model = w.settings_model;
      interface = w.settings_interface;
    };
  },
  [],
)
update world w (set_computer_name v) = (record w { settings_name = v }, [])
update world w (set_model v) = (record w { settings_model = v }, [])
update world w (set_interface v) = (record w { settings_interface = v }, [])
update world w scroll_send = then_step (stop_discovery w) (start_discovery world)
update world w tick = (drain_background world w, [])

-- The popup that `view` opens when the icon is pressed.
unfoldable pub open_popup : ℕ → Window → Window
open_popup new_id w = record w { popup = some new_id }
