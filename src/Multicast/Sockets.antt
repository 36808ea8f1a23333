-- ===== src/Multicast/Sockets.antt =====
-- proxy/src/multicast_config.rs: `create_multicast_socket_on_device`, and the groups that it joins.
use shredstream_proxy.Common.{
  ℕ, ◌≡◌, refl, ap, ◌∙◌, Bool, true, false, Bool-cases, ◌&&◌, ==_iff, ◌||◌, Option, none, some,
  List, [], ◌∷◌, ◌++◌, Result, ok, err, ◌==◌, if◌then◌else◌, arith, inl, inr,
}
use shredstream_proxy.Multicast.{Text, IpAddr, v4, v6}
use shredstream_proxy.Multicast.Routes.{
  Host, get_ip_route_for_device, ipv4_addr_for_device, ifindex_for_device,
}

pub data Family : Type 0 where
  inet4 inet6 : Family

-- Whether a socket of the family can be bound on the port, and whether it can then join the group on
-- the interface.
pub record Net : Type 0 where
  pub can_bind : Family → (port : ℕ) → Bool
  pub can_join : Family → (group interface : ℕ) → Bool

-- A socket bound on the family's unspecified address, with the groups that it has joined, in order.
pub record UdpSocket : Type 0 where
  pub family : Family
  pub port : ℕ
  pub interface : ℕ
  pub joined : List ℕ

-- Half of `partition_map`.
unfoldable pub of_family : Family → List IpAddr → List ℕ
of_family family [] = []
of_family inet4 (v4 a ∷ ips) = a ∷ of_family inet4 ips
of_family inet4 (v6 a ∷ ips) = of_family inet4 ips
of_family inet6 (v4 a ∷ ips) = of_family inet6 ips
of_family inet6 (v6 a ∷ ips) = a ∷ of_family inet6 ips

abbrev pub or_zero : {E : Type 0} → Result E (Option ℕ) → ℕ
or_zero (ok (some a)) = a
or_zero (ok none) = 0
or_zero (err e) = 0

abbrev pub routed : {E : Type 0} → Family → Result E (List IpAddr) → List ℕ
routed family (ok ips) = of_family family ips
routed family (err e) = []

module _ (H : Host) (device_name : Text) where
  -- The interface that a group is joined on: the device's address, or its index; else 0.
  unfoldable pub interface_of : Family → ℕ
  unfolding ipv4_addr_for_device ifindex_for_device
  interface_of inet4 = or_zero (ipv4_addr_for_device H device_name)
  interface_of inet6 = or_zero (ifindex_for_device H device_name)

  -- `groups_v4` and `groups_v6`.
  unfoldable pub groups_of : Option IpAddr → Family → List ℕ
  unfolding get_ip_route_for_device of_family
  groups_of (some ip) family = of_family family (ip ∷ [])
  groups_of none family = routed family (get_ip_route_for_device H device_name)

abbrev pub is_empty {ℓ} : {A : Type ℓ} → List A → Bool
is_empty [] = true
is_empty (x ∷ xs) = false

module _ (N : Net) (multicast_port : ℕ) where
  unfoldable pub join_groups : Family → (interface : ℕ) → List ℕ → List ℕ
  join_groups family interface [] = []
  join_groups family interface (g ∷ groups) =
      let joined = join_groups family interface groups in
      if N.can_join family g interface then g ∷ joined else joined

  unfoldable pub family_sockets : Family → (interface : ℕ) → List ℕ → List UdpSocket
  unfolding join_groups
  family_sockets family interface [] = []
  family_sockets family interface (g ∷ groups) =
      if N.can_bind family multicast_port
      then record {
        family = family;
        port = multicast_port;
        interface = interface;
        joined = join_groups family interface (g ∷ groups);
      }
        ∷ []
      else []

  unfoldable pub create_multicast_socket_on_device :
      Host → (device_name : Text) → (multicast_ip : Option IpAddr) → Option (List UdpSocket)
  unfolding groups_of interface_of family_sockets
  create_multicast_socket_on_device H device_name multicast_ip =
      let sockets =
        family_sockets inet4 (interface_of H device_name inet4)
          (groups_of H device_name multicast_ip inet4)
        ++ family_sockets inet6 (interface_of H device_name inet6)
            (groups_of H device_name multicast_ip inet6) in
      if is_empty (groups_of H device_name multicast_ip inet4)
        && is_empty (groups_of H device_name multicast_ip inet6)
      then none
      else (if is_empty sockets then none else some sockets)

abbrev pub elem : ℕ → List ℕ → Bool
elem g [] = false
elem g (x ∷ xs) = g == x || elem g xs

abbrev pub same_family : Family → Family → Bool
same_family inet4 inet4 = true
same_family inet6 inet6 = true
same_family inet4 inet6 = false
same_family inet6 inet4 = false

module _ (family : Family) (port g : ℕ) where
  -- A socket of the family on the port that has joined the group.
  abbrev pub receives : List UdpSocket → Bool
  receives [] = false
  receives (s ∷ sockets) =
      (same_family family s.family && (s.port == port && elem g s.joined)) || receives sockets

  abbrev pub receives_any : Option (List UdpSocket) → Bool
  receives_any none = false
  receives_any (some sockets) = receives sockets

  receives-append : (ss ts : List UdpSocket) → receives (ss ++ ts) ≡ (receives ss || receives ts)
  receives-append [] ts = refl
  receives-append (s ∷ ss) ts = ground (arith, receives-append ss ts)

module _ (N : Net) (port : ℕ) where
  elem-join_groups :
      (family : Family) (interface g : ℕ) (groups : List ℕ)
      → elem g (join_groups N port family interface groups)
        ≡ (elem g groups && N.can_join family g interface)
  unfolding join_groups
  elem-join_groups family interface g [] = refl
  elem-join_groups family interface g (x ∷ groups) = elim (Bool-cases (g == x)) [
    | inl e ↦ rw ((==_iff g x).0 e) (ground (arith, elem-join_groups family interface x groups))
    | inr e ↦ ground (arith, e, elem-join_groups family interface g groups)
  ]

  receives-family_sockets :
      (f family : Family) (interface g : ℕ) (groups : List ℕ)
      → receives f port g (family_sockets N port family interface groups) ≡ (
          same_family f family
          && (elem g groups && (N.can_bind family port && N.can_join family g interface)))
  unfolding family_sockets
  receives-family_sockets f family interface g [] = ground arith
  receives-family_sockets f family interface g (x ∷ groups) =
      ground (arith, elem-join_groups family interface g (x ∷ groups))

receives-some :
    (f : Family) (port g : ℕ) (ss : List UdpSocket)
    → receives_any f port g (if is_empty ss then none else some ss) ≡ receives f port g ss
receives-some f port g [] = refl
receives-some f port g (s ∷ ss) = refl

receives-both :
    (N : Net) (port : ℕ) (f : Family) (g i4 i6 : ℕ) (gs4 gs6 : List ℕ)
    → receives_any f port g (
        if is_empty gs4 && is_empty gs6
        then none
        else (let ss = family_sockets N port inet4 i4 gs4 ++ family_sockets N port inet6 i6 gs6 in
            if is_empty ss then none else some ss))
      ≡ (receives f port g (family_sockets N port inet4 i4 gs4)
          || receives f port g (family_sockets N port inet6 i6 gs6))
unfolding family_sockets
receives-both N port f g i4 i6 [] [] = refl
receives-both N port f g i4 i6 [] (y ∷ gs6) = receives-some f port g _
receives-both N port f g i4 i6 (x ∷ gs4) gs6 =
    receives-some f port g _ ∙ receives-append f port g (family_sockets N port inet4 i4 (x ∷ gs4)) _

of_its_family :
    (f : Family) (test : Family → Bool)
    → ((same_family f inet4 && test inet4) || (same_family f inet6 && test inet6)) ≡ test f
of_its_family inet4 test = ground arith
of_its_family inet6 test = refl

-- The result has a socket on the port that receives a group exactly if the group is one of the
-- family's wanted groups, a socket of that family can be bound on the port, and such a socket can
-- join the group on the device's interface: no group that can be joined is lost, and no other is
-- joined.
pub create_multicast_socket_on_device-receives :
    (N : Net) (port : ℕ) (H : Host) (device_name : Text) (multicast_ip : Option IpAddr) (f : Family)
    (g : ℕ)
    → receives_any f port g (create_multicast_socket_on_device N port H device_name multicast_ip)
      ≡ (elem g (groups_of H device_name multicast_ip f)
          && (N.can_bind f port && N.can_join f g (interface_of H device_name f)))
unfolding create_multicast_socket_on_device
create_multicast_socket_on_device-receives N port H device ip f g =
    receives-both N port f g (interface_of H device inet4) (interface_of H device inet6)
      (groups_of H device ip inet4) (groups_of H device ip inet6)
    ∙ ap
        (λ x.
          x
          || receives f port g (
              family_sockets N port inet6 (interface_of H device inet6)
                (groups_of H device ip inet6)))
        (receives-family_sockets N port f inet4 _ g (groups_of H device ip inet4))
    ∙ ap (◌||◌ _) (receives-family_sockets N port f inet6 _ g (groups_of H device ip inet6))
    ∙ of_its_family f (λ x.
      elem g (groups_of H device ip x)
      && (N.can_bind x port && N.can_join x g (interface_of H device x)))
