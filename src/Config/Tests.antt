-- ===== src/Config/Tests.antt =====
-- The configuration on a sample system.
use cosmicdrop.Base.{ℕ, Bool, true, false, List, [], ◌∷◌, Option, none, some, ◌≡◌, refl}
use cosmicdrop.Config.{
  configured, new, with_keys, create_default_key, read_record, get_ip_for_interface,
  detect_airdrop_interface, AirDropConfig, FileEffect, dir, file,
}
use cosmicdrop.Config.Samples.{sample_system, no_settings, sample_config, interfaces, link_local}
use cosmicdrop.Text.{codes}

link_local_first : get_ip_for_interface (some interfaces) (codes "wlan0") true ≡ some link_local
unfolding get_ip_for_interface cosmicdrop.Config.find_ip cosmicdrop.Config.is_link_local
    cosmicdrop.Base.bytes_eq
link_local_first = refl

wifi_first : detect_airdrop_interface (some interfaces) ≡ codes "wlan0"
unfolding detect_airdrop_interface cosmicdrop.Config.any_name cosmicdrop.Config.any_ip
    cosmicdrop.Config.find_wifi cosmicdrop.Config.is_unspecified cosmicdrop.Base.bytes_eq
    cosmicdrop.Text.starts_with
wifi_first = refl

default_port : sample_config.port ≡ 8771
unfolding configured
default_port = refl

default_keys : sample_config.cert_file ≡ codes "/home/.opendrop/keys/certificate.pem"
unfolding configured cosmicdrop.Text.join
default_keys = refl

-- Without key files, they are written on the first start.
first_start :
    new sample_system no_settings
    ≡ some (
      sample_config,
      dir sample_config.key_dir
          ∷ file sample_config.cert_file (1 ∷ [])
          ∷ file sample_config.key_file (2 ∷ [])
          ∷ [],
    )
unfolding new with_keys create_default_key read_record configured cosmicdrop.Config.write_keys
first_start = refl
