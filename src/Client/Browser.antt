-- ===== src/Client/Browser.antt =====
-- The loop of `AirDropBrowser::start` in src/client.rs: what a service event does to the map of
-- receivers, an association list, and the event that goes to the applet. The answer of the
-- discover request to the new receiver is an argument.
use cosmicdrop.Base.{
  ℕ, Bool, true, false, if◌then◌else◌, List, [], ◌∷◌, Option, none, some, bytes_eq, ◌==◌,
}
use cosmicdrop.App.{BrowserEvent, found, removed}
use cosmicdrop.Client.{Receiver, select_airdrop_address}
use cosmicdrop.Config.{IpAddr, or_else, supports_discover_maybe}
use cosmicdrop.Plist.{and_then}
use cosmicdrop.Text.{split, parse}

-- What is read of a resolved service.
pub record ServiceInfo : Type 0 where
  pub fullname : List ℕ
  pub addresses : List IpAddr
  pub flags : Option (List ℕ)
  pub port : ℕ
  pub hostname : List ℕ

abbrev pub first_part : List (List ℕ) → List ℕ
first_part [] = []
first_part (part ∷ parts) = part

unfoldable pub id_of : List ℕ → List ℕ
id_of fullname = first_part (split (λ c. c == b'.') fullname)

unfoldable pub receiver_of : ServiceInfo → Receiver
receiver_of info = record {
  id = id_of info.fullname;
  name = none;
  address = select_airdrop_address info.addresses;
  port = info.port;
  hostname = info.hostname;
  flags = or_else (and_then info.flags (parse 4294967296)) supports_discover_maybe;
  discoverable = false;
}

-- `map.entry(id).or_insert(receiver)`: a receiver that is there stays.
unfoldable pub or_insert : Receiver → List Receiver → List Receiver
or_insert receiver [] = receiver ∷ []
or_insert receiver (r ∷ map) =
    let later = or_insert receiver map in if bytes_eq r.id receiver.id then r ∷ map else r ∷ later

abbrev pub is_named : Option (List ℕ) → Bool
is_named none = false
is_named (some name) = true

-- The entry with the name that the request gave, and the map with it.
unfoldable pub set_name : List ℕ → Option (List ℕ) → List Receiver → List Receiver
set_name id name [] = []
set_name id name (r ∷ map) =
    let later = set_name id name map in
    if bytes_eq r.id id
    then record r { name = name; discoverable = is_named name } ∷ map
    else r ∷ later

unfoldable pub get_receiver : List ℕ → List Receiver → Option Receiver
get_receiver id [] = none
get_receiver id (r ∷ map) =
    let later = get_receiver id map in if bytes_eq r.id id then some r else later

unfoldable pub without_id : List ℕ → List Receiver → List Receiver
without_id id [] = []
without_id id (r ∷ map) =
    let later = without_id id map in if bytes_eq r.id id then map else r ∷ later

pub data ServiceEvent : Type 0 where
  service_resolved : ServiceInfo → ServiceEvent
  service_removed : List ℕ → ServiceEvent
  other_event : ServiceEvent

abbrev pub found_event : Option Receiver → List BrowserEvent
found_event none = []
found_event (some r) = found r ∷ []

-- One event: the map and what is sent to the applet.
unfoldable pub handle_event :
    (Receiver → Option (List ℕ)) → List Receiver → ServiceEvent → List Receiver × List BrowserEvent
handle_event discover map (service_resolved info) =
    let receiver = receiver_of info in
    let named = set_name receiver.id (discover receiver) (or_insert receiver map) in
    (named, found_event (get_receiver receiver.id named))
handle_event discover map (service_removed fullname) =
    (without_id (id_of fullname) map, removed (id_of fullname) ∷ [])
handle_event discover map other_event = (map, [])
