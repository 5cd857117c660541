-- ===== src/Config.antt =====
-- src/config.rs: the configuration of AirDrop and the choice of the network interface and of its
-- address. What the operating system and the certificate library answer is the record `System`;
-- what is written to the file system is a list of effects. Texts and paths are lists of bytes.
pub mod Samples
mod Tests
use cosmicdrop.Base.{
  ℕ, ◌+◌, ltb, ◌==◌, Bool, true, false, not, ◌&&◌, ◌||◌, if◌then◌else◌, List, [], ◌∷◌, ◌++◌, map,
  Option, none, some, bytes_eq, bit_and, bit_or,
}
use cosmicdrop.Text.{codes, starts_with, join, hex}

-- An IPv4 address by its first octet and the others, an IPv6 address by its first segment and the
-- others.
pub data IpAddr : Type 0 where
  v4 : ℕ → List ℕ → IpAddr
  v6 : ℕ → List ℕ → IpAddr

abbrev pub is_ipv6 : IpAddr → Bool
is_ipv6 (v4 o os) = false
is_ipv6 (v6 s ss) = true

abbrev pub loopback_segments : List ℕ
loopback_segments = 0 ∷ 0 ∷ 0 ∷ 0 ∷ 0 ∷ 0 ∷ 1 ∷ []

unfoldable pub is_loopback : IpAddr → Bool
is_loopback (v4 o os) = o == 127
is_loopback (v6 s ss) = s == 0 && bytes_eq ss loopback_segments

unfoldable pub is_unspecified : IpAddr → Bool
is_unspecified (v4 o os) = o == 0 && bytes_eq os (0 ∷ 0 ∷ 0 ∷ [])
is_unspecified (v6 s ss) = s == 0 && bytes_eq ss (0 ∷ 0 ∷ 0 ∷ 0 ∷ 0 ∷ 0 ∷ 0 ∷ [])

-- `v6.segments()[0] & 0xffc0 == 0xfe80`, false for an IPv4 address.
unfoldable pub is_link_local : IpAddr → Bool
is_link_local (v4 o os) = false
is_link_local (v6 s ss) = bit_and s 0xffc0 == 0xfe80

pub record Interface : Type 0 where
  pub name : List ℕ
  pub ip : IpAddr

-- `if any.is_none() { any = Some(a) }`.
abbrev pub keep_first : Option IpAddr → IpAddr → Option IpAddr
keep_first none a = some a
keep_first (some b) a = some b

-- The loop of `get_ip_for_interface`; `any_v6` is its variable.
unfoldable pub find_ip : List ℕ → Bool → Option IpAddr → List Interface → Option IpAddr
find_ip interface_name ipv6 any_v6 [] = if ipv6 then any_v6 else none
find_ip interface_name ipv6 any_v6 (iface ∷ ifaces) =
    let first_v6 = keep_first any_v6 iface.ip in
    let unchanged = find_ip interface_name ipv6 any_v6 ifaces in
    let changed = find_ip interface_name ipv6 first_v6 ifaces in
    if bytes_eq iface.name interface_name
    then (if ipv6
        then (if is_ipv6 iface.ip
            then (if is_link_local iface.ip then some iface.ip else changed)
            else unchanged)
        else (if not (is_ipv6 iface.ip) then some iface.ip else unchanged))
    else unchanged

unfoldable pub get_ip_for_interface : Option (List Interface) → List ℕ → Bool → Option IpAddr
get_ip_for_interface none interface_name ipv6 = none
get_ip_for_interface (some ifaces) interface_name ipv6 = find_ip interface_name ipv6 none ifaces

unfoldable pub any_ip : List Interface → List ℕ → Bool
any_ip [] name = false
any_ip (i ∷ list) name =
    (bytes_eq i.name name && (not (is_ipv6 i.ip) || (is_ipv6 i.ip && not (is_unspecified i.ip))))
    || any_ip list name

abbrev pub has_ip : Option (List Interface) → List ℕ → Bool
has_ip none name = false
has_ip (some list) name = any_ip list name

unfoldable pub any_name : List (List ℕ) → List ℕ → Bool
any_name [] name = false
any_name (n ∷ names) name = bytes_eq n name || any_name names name

-- The first Wi-Fi interface with an address, the first interface but `lo` with one.
unfoldable pub find_wifi : Option (List Interface) → List (List ℕ) → Option (List ℕ)
find_wifi ifaces [] = none
find_wifi ifaces (name ∷ names) =
    let later = find_wifi ifaces names in
    if (starts_with name (codes "wl") || bytes_eq name (codes "wlan0")) && has_ip ifaces name
    then some name
    else later

unfoldable pub find_active : List Interface → Option (List ℕ)
find_active [] = none
find_active (i ∷ list) =
    let later = find_active list in
    if not (bytes_eq i.name (codes "lo")) && (not (is_ipv6 i.ip) || not (is_unspecified i.ip))
    then some i.name
    else later

abbrev pub names_of : Option (List Interface) → List (List ℕ)
names_of none = []
names_of (some list) = map (λ (i : Interface). i.name) list

abbrev pub active_of : Option (List Interface) → Option (List ℕ)
active_of none = none
active_of (some list) = find_active list

abbrev pub or_else {ℓ} : {A : Type ℓ} → Option A → A → A
or_else none a = a
or_else (some b) a = b

unfoldable pub detect_airdrop_interface : Option (List Interface) → List ℕ
detect_airdrop_interface ifaces =
    if any_name (names_of ifaces) (codes "awdl0") && has_ip ifaces (codes "awdl0")
    then codes "awdl0"
    else or_else (find_wifi ifaces (names_of ifaces)) (or_else (active_of ifaces) (codes "awdl0"))

abbrev pub supports_url : ℕ
supports_url = 0x01

abbrev pub supports_mixed_types : ℕ
supports_mixed_types = 0x08

abbrev pub supports_discover_maybe : ℕ
supports_discover_maybe = 0x80

pub record AirDropConfig : Type 0 where
  pub host_name : List ℕ
  pub computer_name : List ℕ
  pub computer_model : List ℕ
  pub port : ℕ
  pub airdrop_dir : List ℕ
  pub service_id : List ℕ
  pub email : List (List ℕ)
  pub phone : List (List ℕ)
  pub debug : Bool
  pub debug_dir : List ℕ
  pub interface : List ℕ
  pub flags : ℕ
  pub root_ca_file : List ℕ
  pub key_dir : List ℕ
  pub cert_file : List ℕ
  pub key_file : List ℕ
  pub record_file : List ℕ
  pub record_data : Option (List ℕ)

-- The arguments of `new`.
pub record Settings : Type 0 where
  pub host_name : Option (List ℕ)
  pub computer_name : Option (List ℕ)
  pub computer_model : Option (List ℕ)
  pub server_port : Option ℕ
  pub airdrop_dir : Option (List ℕ)
  pub service_id : Option (List ℕ)
  pub email : Option (List (List ℕ))
  pub phone : Option (List (List ℕ))
  pub debug : Bool
  pub interface : Option (List ℕ)

-- The answers of the system: the host name, `HOME`, a random number, the interfaces, the files, and
-- the certificate and the key that the library generates for a name.
pub record System : Type 0 where
  pub hostname : Option (List ℕ)
  pub home : Option (List ℕ)
  pub random : ℕ
  pub if_addrs : Option (List Interface)
  pub exists : List ℕ → Bool
  pub read : List ℕ → Option (List ℕ)
  pub create_dir_all : List ℕ → Bool
  pub write : List ℕ → List ℕ → Bool
  pub generate_simple_self_signed : List ℕ → Option (List ℕ × List ℕ)

-- What is done to the file system.
pub data FileEffect : Type 0 where
  dir : List ℕ → FileEffect
  file : List ℕ → List ℕ → FileEffect

-- `Ok` with the effects, or `Err`.
unfoldable pub write_keys :
    System → AirDropConfig → Option (List ℕ × List ℕ) → Option (List FileEffect)
write_keys sys self none = none
write_keys sys self (some (cert_pem, key_pem)) =
    if sys.write self.cert_file cert_pem && sys.write self.key_file key_pem
    then some (dir self.key_dir ∷ file self.cert_file cert_pem ∷ file self.key_file key_pem ∷ [])
    else none

unfoldable pub create_default_key : System → AirDropConfig → Option (List FileEffect)
unfolding write_keys
create_default_key sys self =
    if sys.create_dir_all self.key_dir
    then write_keys sys self (sys.generate_simple_self_signed self.computer_name)
    else none

-- `write_debug`; the results of its calls are ignored.
unfoldable pub write_debug : AirDropConfig → List ℕ → List ℕ → List FileEffect
write_debug self bytes file_name =
    if not self.debug
    then []
    else dir self.debug_dir ∷ file (join self.debug_dir file_name) bytes ∷ []

-- The record data of the file, if there is one: `none` is a file that cannot be read.
unfoldable pub read_record : System → List ℕ → Option (Option (List ℕ))
read_record sys record_file =
    if sys.exists record_file
    then elim (sys.read record_file) [ none ↦ none | some bytes ↦ some (some bytes) ]
    else some none

unfoldable pub configured : System → Settings → Option (List ℕ) → AirDropConfig
configured sys args record_data =
    let host_name = or_else args.host_name (or_else sys.hostname (codes "cosmicdrop")) in
    let airdrop_dir =
      or_else args.airdrop_dir (join (or_else sys.home (codes ".")) (codes ".opendrop")) in
    let key_dir = join airdrop_dir (codes "keys") in
    record {
      host_name = host_name;
      computer_name = or_else args.computer_name host_name;
      computer_model = or_else args.computer_model (codes "CosmicDrop");
      port = or_else args.server_port 8771;
      airdrop_dir = airdrop_dir;
      service_id = or_else args.service_id (hex 12 (bit_and sys.random 0xffffffffffff));
      email = or_else args.email [];
      phone = or_else args.phone [];
      debug = args.debug;
      debug_dir = join airdrop_dir (codes "debug");
      interface = or_else args.interface (detect_airdrop_interface sys.if_addrs);
      flags = bit_or supports_mixed_types supports_discover_maybe;
      root_ca_file = codes "apple_root_ca.pem";
      key_dir = key_dir;
      cert_file = join key_dir (codes "certificate.pem");
      key_file = join key_dir (codes "key.pem");
      record_file = join key_dir (codes "validation_record.cms");
      record_data = record_data;
    }

unfoldable pub with_keys : System → AirDropConfig → Option (AirDropConfig × List FileEffect)
with_keys sys config =
    if not (sys.exists config.cert_file) || not (sys.exists config.key_file)
    then elim (create_default_key sys config) [
      | none ↦ none
      | some effects ↦ some (config, effects)
    ]
    else some (config, [])

unfoldable pub new : System → Settings → Option (AirDropConfig × List FileEffect)
unfolding configured read_record with_keys
new sys args =
    let record_file = (configured sys args none).record_file in
    elim (read_record sys record_file) [
      | none ↦ none
      | some record_data ↦ with_keys sys (configured sys args record_data)
    ]
