-- ===== src/Config/Samples.antt =====
-- A system and the configuration that src/config.rs makes on it.
use cosmicdrop.Base.{true, false, List, [], ◌∷◌, none, some}
use cosmicdrop.Config.{IpAddr, v4, v6, Interface, AirDropConfig, Settings, System, configured}
use cosmicdrop.Text.{codes}

abbrev pub link_local : IpAddr
link_local = v6 0xfe80 (0 ∷ 0 ∷ 0 ∷ 0 ∷ 0 ∷ 0 ∷ 1 ∷ [])

abbrev pub interfaces : List Interface
interfaces =
    (record { name = codes "lo"; ip = v4 127 (0 ∷ 0 ∷ 1 ∷ []) })
    ∷ (record { name = codes "wlan0"; ip = v4 192 (168 ∷ 0 ∷ 2 ∷ []) })
    ∷ (record { name = codes "wlan0"; ip = v6 0x2001 (1 ∷ 2 ∷ 3 ∷ 4 ∷ 5 ∷ 6 ∷ 7 ∷ []) })
    ∷ (record { name = codes "wlan0"; ip = link_local })
    ∷ []

abbrev pub sample_system : System
sample_system = record {
  hostname = some (codes "pc");
  home = some (codes "/home");
  random = 0xabc;
  if_addrs = some interfaces;
  exists = λ path. false;
  read = λ path. none;
  create_dir_all = λ path. true;
  write = λ path bytes. true;
  generate_simple_self_signed = λ name. some (1 ∷ [], 2 ∷ []);
}

abbrev pub no_settings : Settings
no_settings = record {
  host_name = none;
  computer_name = none;
  computer_model = none;
  server_port = none;
  airdrop_dir = none;
  service_id = none;
  email = none;
  phone = none;
  debug = false;
  interface = none;
}

abbrev pub sample_config : AirDropConfig
sample_config = configured sample_system no_settings none
