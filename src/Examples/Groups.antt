-- ===== src/Examples/Groups.antt =====
-- The theorems on the multicast groups at a concrete device.
use shredstream_proxy.Common.{
  ℕ, ◌≡◌, ◌↔◌, Any, refl, true, ◌&&◌, Option, some, none, List, [], ◌∷◌, map, ok, err, IsStrict,
  contains, arith,
}
use shredstream_proxy.Multicast.{IpAddr, v4}
use shredstream_proxy.Multicast.Routes.{
  Host, key, filter_map, sort_dedup_ips, parse_ip_route_for_device,
}
use shredstream_proxy.Multicast.Leads.{LeadsTo}
use shredstream_proxy.Multicast.Groups.{
  print_route, route_group, parse_ip_route_for_device-Groups, parse_ip_route_for_device-print_route,
}
use shredstream_proxy.Multicast.Sockets.{
  Net, inet4, elem, receives_any, groups_of, interface_of, create_multicast_socket_on_device,
  create_multicast_socket_on_device-receives,
}

-- 233.84.178.2 twice, and 169.254.2.112/31.
abbrev toy_routes : List (ℕ × Option ℕ)
toy_routes = (3914641922, none) ∷ (2851996272, some 31) ∷ (3914641922, some 32) ∷ []

abbrev toy_host : Host
toy_host = record {
  IoError = ℕ;
  JsonError = ℕ;
  output = λ args. ok (record { success = true; stdout = [] });
  failed = λ args. 1;
  invalid_data = λ e. e;
  route_rows = λ bytes. ok (map print_route toy_routes);
  addr_rows = λ bytes. err 2;
  link_rows = λ bytes. err 3;
  parse_ipv6 = λ text. none;
}

abbrev toy_net : Net
toy_net = record { can_bind = λ f port. true; can_join = λ f group interface. true }

parse_ip_route_for_device-print_route_example :
    parse_ip_route_for_device toy_host [] ≡ ok (sort_dedup_ips (filter_map route_group toy_routes))
parse_ip_route_for_device-print_route_example =
    parse_ip_route_for_device-print_route toy_host [] toy_routes refl
      (omega arith, ((omega arith, omega arith), ((omega arith, omega arith), tt)))

parse_ip_route_for_device-Groups_example :
    (groups : List IpAddr) × (parse_ip_route_for_device toy_host [] ≡ ok groups)
    × IsStrict (map key groups)
    × ((ip : IpAddr)
        → (contains (key ip) (map key groups) ≡ true)
          ↔ Any (λ dst. LeadsTo toy_host.parse_ipv6 dst ip) (map print_route toy_routes))
parse_ip_route_for_device-Groups_example =
    parse_ip_route_for_device-Groups toy_host [] (map print_route toy_routes) refl

create_multicast_socket_on_device-receives_example :
    receives_any inet4 9 5 (create_multicast_socket_on_device toy_net 9 toy_host [] (some (v4 5)))
    ≡ (elem 5 (groups_of toy_host [] (some (v4 5)) inet4)
        && (toy_net.can_bind inet4 9 && toy_net.can_join inet4 5 (interface_of toy_host [] inet4)))
create_multicast_socket_on_device-receives_example =
    create_multicast_socket_on_device-receives toy_net 9 toy_host [] (some (v4 5)) inet4 5
