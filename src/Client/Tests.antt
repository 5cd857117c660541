-- ===== src/Client/Tests.antt =====
-- The client at small inputs.
use cosmicdrop.Base.{ℕ, ◌<◌, Bool, true, false, List, [], ◌∷◌, Option, none, some, ◌≡◌, ◌⊎◌, refl}
use cosmicdrop.App.{found, removed}
use cosmicdrop.Client.{
  select_airdrop_address, select_from, Receiver, read_http_response, chunk, failed,
}
use cosmicdrop.Client.Address.{select_airdrop_address-best, rank, best_rank, IsAmong, loopback}
use cosmicdrop.Client.Browser.{
  handle_event, service_resolved, service_removed, receiver_of, id_of, ServiceInfo,
}
use cosmicdrop.Client.Requests.{SentFile, file_type_of}
use cosmicdrop.Config.{IpAddr, v4, v6}
use cosmicdrop.Config.Samples.{link_local}
use cosmicdrop.Text.{codes}
use cosmicdrop.Text.Ascii.{ascii_lib}
use cosmicdrop.Wire.{ok}

abbrev addresses : List IpAddr
addresses = v4 192 (168 ∷ 0 ∷ 2 ∷ []) ∷ v6 0x2001 (1 ∷ 2 ∷ 3 ∷ 4 ∷ 5 ∷ 6 ∷ 7 ∷ []) ∷ link_local ∷ []

selected : select_airdrop_address addresses ≡ link_local
unfolding select_airdrop_address select_from cosmicdrop.Config.is_loopback
    cosmicdrop.Config.is_link_local
selected = refl

select_airdrop_address-best_example :
    (rank (select_airdrop_address addresses) ≡ best_rank addresses)
    × ((IsAmong (select_airdrop_address addresses) addresses × (0 < best_rank addresses))
        ⊎ ((select_airdrop_address addresses ≡ loopback) × (best_rank addresses ≡ 0)))
select_airdrop_address-best_example = select_airdrop_address-best addresses

-- A connection that ends early gives what has arrived, one that fails an error.
cut_off :
    read_http_response ascii_lib [] (chunk (codes "HTTP/1.1 2") ∷ []) ≡ some (codes "HTTP/1.1 2")
unfolding read_http_response cosmicdrop.Client.is_complete cosmicdrop.Client.find_header_end
    cosmicdrop.Text.position cosmicdrop.Text.starts_with
cut_off = refl

broken : read_http_response ascii_lib [] (chunk (codes "HTTP") ∷ failed ∷ []) ≡ none
unfolding read_http_response cosmicdrop.Client.is_complete cosmicdrop.Client.find_header_end
    cosmicdrop.Text.position cosmicdrop.Text.starts_with
broken = refl

abbrev directory : SentFile
directory = record {
  file_name = some (codes "photos");
  is_dir = true;
  contents = none;
  icon = none;
}

folder_type : file_type_of directory ≡ ok (codes "public.folder")
unfolding file_type_of
folder_type = refl

abbrev service : ℕ → ServiceInfo
service port = record {
  fullname = codes "ab12._airdrop._tcp.local.";
  addresses = addresses;
  flags = some (codes "136");
  port = port;
  hostname = codes "pc.local.";
}

abbrev named : ℕ → Receiver
named port = record (receiver_of (service port)) { name = some (codes "pc"); discoverable = true }

-- A receiver that is resolved again at another port keeps the first one.
resolved_again :
    handle_event (λ r. some (codes "pc")) (named 8770 ∷ []) (service_resolved (service 8771))
    ≡ (named 8770 ∷ [], found (named 8770) ∷ [])
unfolding handle_event receiver_of id_of cosmicdrop.Client.Browser.or_insert
    cosmicdrop.Client.Browser.set_name cosmicdrop.Client.Browser.get_receiver
    cosmicdrop.Base.bytes_eq cosmicdrop.Text.split
resolved_again = refl

gone :
    handle_event (λ r. none) (named 8770 ∷ []) (service_removed (codes "ab12._airdrop._tcp.local."))
    ≡ ([], removed (codes "ab12") ∷ [])
unfolding handle_event receiver_of id_of cosmicdrop.Client.Browser.without_id
    cosmicdrop.Base.bytes_eq cosmicdrop.Text.split
gone = refl
