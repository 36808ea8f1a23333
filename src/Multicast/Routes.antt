-- ===== src/Multicast/Routes.antt =====
-- proxy/src/multicast_config.rs: `ip --json` is run, and its rows are read. The program `ip` and
-- `serde_json` are parameters.
use shredstream_proxy.Common.{
  ℕ, Bool, true, false, ◌&&◌, Option, none, some, List, [], ◌∷◌, ◌++◌, Result, ok, err, and_then,
  map_err, ◌==◌, if◌then◌else◌, Key, key_eq, sort_by_key,
}
use shredstream_proxy.Multicast.{
  Text, IpAddr, v4, v6, is_multicast, when, bind, map_or, split_once, parse_u8, parse_ipv4,
  parse_ip,
}

pub record Output : Type 0 where
  pub success : Bool
  pub stdout : Text

pub record AddrInfo : Type 0 where
  pub family : Option Text
  pub local : Option Text

-- What the code takes from outside: running `ip`, the errors, reading the rows of each kind, and the
-- standard library's parser of IPv6 addresses.
pub record Host : Type 1 where
  pub IoError : Type 0
  pub JsonError : Type 0
  pub output : (args : List Text) → Result IoError Output
  pub failed : (args : List Text) → IoError
  pub invalid_data : JsonError → IoError
  pub route_rows : Text → Result JsonError (List Text)
  pub addr_rows : Text → Result JsonError (List (Option (List AddrInfo)))
  pub link_rows : Text → Result JsonError (List (Option ℕ))
  pub parse_ipv6 : Text → Option ℕ

module _ {ℓ κ} {A : Type ℓ} {B : Type κ} where
  unfoldable pub filter_map : (A → Option B) → List A → List B
  filter_map f [] = []
  filter_map f (a ∷ rest) = let bs = filter_map f rest in map_or bs (λ b. b ∷ bs) (f a)

  unfoldable pub find_map : (A → Option B) → List A → Option B
  find_map f [] = none
  find_map f (a ∷ rest) = let found = find_map f rest in map_or found some (f a)

-- A mask of the whole address.
abbrev pub is_exact : IpAddr → ℕ → Bool
is_exact (v4 a) mask = mask == 32
is_exact (v6 a) mask = mask == 128

-- The multicast group of a route row's `dst`.
unfoldable pub group_of_row : (parse_ipv6 : Text → Option ℕ) → Text → Option IpAddr
unfolding split_once parse_ip parse_u8
group_of_row parse_ipv6 dst =
    map_or (bind (parse_ip parse_ipv6 dst) λ ip. when (is_multicast ip) ip)
      (λ p.
        bind (parse_ip parse_ipv6 p.0)
          λ ip. bind (parse_u8 p.1) λ mask. when (is_multicast ip && is_exact ip mask) ip)
      (split_once 47 dst)

-- IPv4 addresses come before IPv6 addresses.
abbrev pub key : IpAddr → Key
key (v4 a) = (0, a)
key (v6 a) = (1, a)

unfoldable pub dedup_ips : List IpAddr → List IpAddr
dedup_ips [] = []
dedup_ips (x ∷ []) = x ∷ []
dedup_ips (x ∷ y ∷ rest) =
    let ys = dedup_ips (y ∷ rest) in if key_eq (key x) (key y) then ys else x ∷ ys

unfoldable pub sort_dedup_ips : List IpAddr → List IpAddr
unfolding dedup_ips sort_by_key
sort_dedup_ips ips = dedup_ips (sort_by_key key ips)

-- The local address of the first IPv4 entry that has one, if it parses.
abbrev pub inet : Text
inet = 105 ∷ 110 ∷ 101 ∷ 116 ∷ []

unfoldable pub same_text : Text → Text → Bool
same_text [] [] = true
same_text [] (y ∷ ys) = false
same_text (x ∷ xs) [] = false
same_text (x ∷ xs) (y ∷ ys) = x == y && same_text xs ys

unfoldable pub inet_local : AddrInfo → Option Text
unfolding same_text
inet_local info = bind info.family λ family. if same_text family inet then info.local else none

abbrev pub unwrap_or_nil {ℓ} : {A : Type ℓ} → Option (List A) → List A
unwrap_or_nil none = []
unwrap_or_nil (some xs) = xs

unfoldable pub flat_map_rows : List (Option (List AddrInfo)) → List AddrInfo
flat_map_rows [] = []
flat_map_rows (row ∷ rows) = unwrap_or_nil row ++ flat_map_rows rows

abbrev pub last_row : List (Option ℕ) → Option ℕ
last_row [] = none
last_row (row ∷ []) = row
last_row (row ∷ next ∷ rows) = last_row (next ∷ rows)

-- "--json", "route", "addr", "link", "show", "dev".
abbrev pub json : Text
json = 45 ∷ 45 ∷ 106 ∷ 115 ∷ 111 ∷ 110 ∷ []

abbrev pub route : Text
route = 114 ∷ 111 ∷ 117 ∷ 116 ∷ 101 ∷ []

abbrev pub addr : Text
addr = 97 ∷ 100 ∷ 100 ∷ 114 ∷ []

abbrev pub link : Text
link = 108 ∷ 105 ∷ 110 ∷ 107 ∷ []

-- `--json <kind> show dev <device>`.
abbrev pub show_args : Text → Text → List Text
show_args kind device =
    json ∷ kind ∷ (115 ∷ 104 ∷ 111 ∷ 119 ∷ []) ∷ (100 ∷ 101 ∷ 118 ∷ []) ∷ device ∷ []

module _ (H : Host) where
  unfoldable pub run_ip_json : List Text → Result H.IoError Text
  run_ip_json args =
      and_then (H.output args)
        λ output. if output.success then ok output.stdout else err (H.failed args)

  unfoldable pub parse_ip_route_for_device : Text → Result H.IoError (List IpAddr)
  unfolding filter_map group_of_row sort_dedup_ips
  parse_ip_route_for_device bytes =
      and_then (map_err H.invalid_data (H.route_rows bytes))
        λ rows. ok (sort_dedup_ips (filter_map (group_of_row H.parse_ipv6) rows))

  unfoldable pub parse_ipv4_addr_from_ip_addr_show_json : Text → Result H.IoError (Option ℕ)
  unfolding find_map inet_local flat_map_rows parse_ipv4
  parse_ipv4_addr_from_ip_addr_show_json bytes =
      and_then (map_err H.invalid_data (H.addr_rows bytes))
        λ rows. ok (bind (find_map inet_local (flat_map_rows rows)) parse_ipv4)

  unfoldable pub parse_ifindex_from_ip_link_show_json : Text → Result H.IoError (Option ℕ)
  parse_ifindex_from_ip_link_show_json bytes =
      and_then (map_err H.invalid_data (H.link_rows bytes)) λ rows. ok (last_row rows)

  unfoldable pub get_ip_route_for_device : Text → Result H.IoError (List IpAddr)
  unfolding run_ip_json parse_ip_route_for_device
  get_ip_route_for_device device =
      and_then (run_ip_json (show_args route device)) parse_ip_route_for_device

  unfoldable pub ipv4_addr_for_device : Text → Result H.IoError (Option ℕ)
  unfolding run_ip_json parse_ipv4_addr_from_ip_addr_show_json
  ipv4_addr_for_device device =
      and_then (run_ip_json (show_args addr device)) parse_ipv4_addr_from_ip_addr_show_json

  unfoldable pub ifindex_for_device : Text → Result H.IoError (Option ℕ)
  unfolding run_ip_json parse_ifindex_from_ip_link_show_json
  ifindex_for_device device =
      and_then (run_ip_json (show_args link device)) parse_ifindex_from_ip_link_show_json
