-- ===== src/App/Transfers.antt =====
-- `begin_send` of src/app.rs and what its thread reports.
use cosmicdrop.Base.{
  ℕ, Bool, true, false, if◌then◌else◌, List, [], ◌∷◌, ◌++◌, Option, none, some, bytes_eq,
}
use cosmicdrop.Client.{Receiver}
use cosmicdrop.Text.{codes}
use cosmicdrop.App.{Step, Window, World, say_send, transfer}

unfoldable pub find_receiver : List ℕ → List Receiver → Option Receiver
find_receiver id [] = none
find_receiver id (r ∷ receivers) =
    let later = find_receiver id receivers in if bytes_eq r.id id then some r else later

unfoldable pub begin_transfer : World → Window → List ℕ → Option Receiver → Step
begin_transfer world w path none = (say_send w (codes "Receiver no longer available"), [])
begin_transfer world w path (some receiver) = (
  record (say_send w (codes "Sending " ++ (path ++ codes " ..."))) { send_rx = some world.channel },
  transfer w.config receiver path ∷ [],
)

unfoldable pub begin_with : World → Window → Option (List ℕ) → Option (List ℕ) → Step
unfolding begin_transfer
begin_with world w none file = (say_send w (codes "No receiver selected"), [])
begin_with world w (some id) none = (say_send w (codes "No file selected"), [])
begin_with world w (some id) (some path) =
    begin_transfer world w path (find_receiver id w.receivers)

unfoldable pub begin_send : World → Window → Step
unfolding begin_with
begin_send world w = begin_with world w w.selected_receiver w.selected_file

-- The line that the thread of a transfer sends, from the results of the two requests.
pub data Outcome : Type 0 where
  answered : Bool → Outcome
  failed : List ℕ → Outcome

unfoldable pub transfer_line : Outcome → Outcome → List ℕ
transfer_line (answered false) upload = codes "Receiver declined."
transfer_line (failed e) upload = codes "Ask error: " ++ e
transfer_line (answered true) (answered true) = codes "Upload successful."
transfer_line (answered true) (answered false) = codes "Upload failed."
transfer_line (answered true) (failed e) = codes "Upload error: " ++ e
