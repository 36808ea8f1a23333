-- ===== src/Multicast/Groups.antt =====
-- proxy/src/multicast_config.rs: the groups that `parse_ip_route_for_device` returns.
use shredstream_proxy.Common.{
  ℕ, ◌/◌, ◌^◌, ◌<◌, ◌≡◌, ◌↔◌, refl, sym, Any, ap, ◌∙◌, true, Bool-cases, ◌&&◌, inl, inr, Option,
  none, some, List, [], ◌∷◌, ◌++◌, map, ok, ◌==◌, All, key_le, key_eq, sort_by_key, insert_sorted,
  dedup, sort_dedup, IsStrict, contains, sort_dedup-IsStrict, contains-sort_dedup,
}
use shredstream_proxy.Multicast.{Text, IpAddr, v4, when, parse_ip}
use shredstream_proxy.Multicast.Decimal.{
  print_octet, print_ipv4, print_ipv4-NoSlash, parse_ipv4-print_ipv4, split_once-slash,
  split_once-none, parse_u8-print_octet,
}
use shredstream_proxy.Multicast.Leads.{LeadsTo, found_iff}
use shredstream_proxy.Multicast.Routes.{
  Host, filter_map, group_of_row, key, dedup_ips, sort_dedup_ips, parse_ip_route_for_device,
}

map-insert_sorted :
    (x : IpAddr) (xs : List IpAddr)
    → map key (insert_sorted key x xs) ≡ insert_sorted (λ k. k) (key x) (map key xs)
unfolding insert_sorted
map-insert_sorted x [] = refl
map-insert_sorted x (y ∷ xs) = elim (Bool-cases (key_le (key x) (key y))) [
  | inl e ↦ rw e refl
  | inr e ↦ rw e (ap (λ ks. key y ∷ ks) (map-insert_sorted x xs))
]

map-sort : (xs : List IpAddr) → map key (sort_by_key key xs) ≡ sort_by_key (λ k. k) (map key xs)
unfolding sort_by_key
map-sort [] = refl
map-sort (x ∷ xs) =
    map-insert_sorted x (sort_by_key key xs) ∙ ap (insert_sorted (λ k. k) (key x)) (map-sort xs)

map-dedup_ips : (xs : List IpAddr) → map key (dedup_ips xs) ≡ dedup (map key xs)
unfolding dedup_ips dedup
map-dedup_ips [] = refl
map-dedup_ips (x ∷ []) = refl
map-dedup_ips (x ∷ y ∷ rest) = elim (Bool-cases (key_eq (key x) (key y))) [
  | inl e ↦ rw e (map-dedup_ips (y ∷ rest))
  | inr e ↦ rw e (ap (λ ks. key x ∷ ks) (map-dedup_ips (y ∷ rest)))
]

map-sort_dedup_ips : (xs : List IpAddr) → map key (sort_dedup_ips xs) ≡ sort_dedup (map key xs)
unfolding sort_dedup_ips sort_dedup
map-sort_dedup_ips xs = map-dedup_ips (sort_by_key key xs) ∙ ap dedup (map-sort xs)

-- If the JSON parses as rows, whatever they hold, the result is each once and in increasing order,
-- the IPv4 groups first, the addresses that some row leads to, and no other: of 224.0.0.0/4 or
-- ff00::/8, and without a mask, or with the one that covers the whole address.
pub parse_ip_route_for_device-Groups :
    (H : Host) (bytes : Text) (rows : List Text)
    → H.route_rows bytes ≡ ok rows
    → (groups : List IpAddr) × (parse_ip_route_for_device H bytes ≡ ok groups)
      × IsStrict (map key groups)
      × ((ip : IpAddr)
          → (contains (key ip) (map key groups) ≡ true)
            ↔ Any (λ dst. LeadsTo H.parse_ipv6 dst ip) rows)
unfolding parse_ip_route_for_device
parse_ip_route_for_device-Groups H bytes rows h =
    let found = filter_map (group_of_row H.parse_ipv6) rows in
    let e = map-sort_dedup_ips found in
    (
      sort_dedup_ips found,
      rw h refl,
      rw e (sort_dedup-IsStrict _),
      λ ip.
          let same = ap (contains (key ip)) e ∙ contains-sort_dedup (key ip) (map key found) in
          let iff = found_iff H.parse_ipv6 ip rows in
          (λ c. iff.0 (sym same ∙ c), λ a. same ∙ iff.1 a),
    )

-- A route to an IPv4 address, with the mask if it is printed, as `ip` prints it.
unfoldable pub print_route : ℕ × Option ℕ → Text
unfolding print_ipv4 print_octet
print_route (a, none) = print_ipv4 a
print_route (a, some mask) = print_ipv4 a ++ 47 ∷ print_octet mask

-- The group that the route leads to, if any.
unfoldable pub route_group : ℕ × Option ℕ → Option IpAddr
route_group (a, none) = when (a / 2 ^ 28 == 14) (v4 a)
route_group (a, some mask) = when (a / 2 ^ 28 == 14 && mask == 32) (v4 a)

abbrev pub IsRoute : ℕ × Option ℕ → Type 0
IsRoute (a, none) = a < 2 ^ 32
IsRoute (a, some mask) = (a < 2 ^ 32) × (mask < 256)

parse_ip-print_ipv4 :
    (parse_ipv6 : Text → Option ℕ) (a : ℕ)
    → a < 2 ^ 32
    → parse_ip parse_ipv6 (print_ipv4 a) ≡ some (v4 a)
unfolding parse_ip
parse_ip-print_ipv4 parse_ipv6 a h = rw (parse_ipv4-print_ipv4 a h) refl

group_of_row-print_route :
    (parse_ipv6 : Text → Option ℕ) (r : ℕ × Option ℕ)
    → IsRoute r
    → group_of_row parse_ipv6 (print_route r) ≡ route_group r
unfolding group_of_row print_route route_group
group_of_row-print_route parse_ipv6 (a, none) h =
    rw (split_once-none _ (print_ipv4-NoSlash a), parse_ip-print_ipv4 parse_ipv6 a h) refl
group_of_row-print_route parse_ipv6 (a, some mask) h =
    rw
      (
        split_once-slash _ (print_octet mask) (print_ipv4-NoSlash a),
        parse_ip-print_ipv4 parse_ipv6 a h.0,
        parse_u8-print_octet mask h.1,
      )
      refl

filter_map-print_route :
    (parse_ipv6 : Text → Option ℕ) (rs : List (ℕ × Option ℕ))
    → All IsRoute rs
    → filter_map (group_of_row parse_ipv6) (map print_route rs) ≡ filter_map route_group rs
unfolding filter_map
filter_map-print_route parse_ipv6 [] h = refl
filter_map-print_route parse_ipv6 (r ∷ rs) h =
    rw (group_of_row-print_route parse_ipv6 r h.0, filter_map-print_route parse_ipv6 rs h.1) refl

-- If the JSON has the rows of IPv4 routes, with 32-bit addresses printed in dotted form and masks
-- below 256 or no mask, then they are read back as the groups of the multicast routes among them
-- whose mask is full or not printed, sorted and each once.
pub parse_ip_route_for_device-print_route :
    (H : Host) (bytes : Text) (rs : List (ℕ × Option ℕ))
    → H.route_rows bytes ≡ ok (map print_route rs)
    → All IsRoute rs
    → parse_ip_route_for_device H bytes ≡ ok (sort_dedup_ips (filter_map route_group rs))
unfolding parse_ip_route_for_device
parse_ip_route_for_device-print_route H bytes rs e h =
    rw (e, filter_map-print_route H.parse_ipv6 rs h) refl
