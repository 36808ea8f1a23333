-- ===== src/Multicast/Leads.antt =====
-- proxy/src/multicast_config.rs: which multicast group the row of a route leads to, said without the
-- code's tests.
use shredstream_proxy.Common.{
  ℕ, ◌/◌, ◌^◌, ◌≡◌, refl, sym, ◌∙◌, ap, ◌⊎◌, inl, inr, ◌↔◌, Bool, true, ◌&&◌, ◌||◌, Option, none,
  some, Option-cases, List, [], ◌∷◌, map, Any, key_eq, contains, arith,
}
use shredstream_proxy.Multicast.{Text, IpAddr, v4, v6, is_multicast, split_once, parse_u8, parse_ip}
use shredstream_proxy.Multicast.Decimal.{bind-eq-some, when-eq-some}
use shredstream_proxy.Multicast.Routes.{filter_map, group_of_row, is_exact, key}

-- An address of 224.0.0.0/4 or of ff00::/8.
abbrev pub IsGroup : IpAddr → Type 0
IsGroup (v4 a) = a / 2 ^ 28 ≡ 14
IsGroup (v6 a) = a / 2 ^ 120 ≡ 255

-- The mask that covers the whole address.
abbrev pub full_mask : IpAddr → ℕ
full_mask (v4 a) = 32
full_mask (v6 a) = 128

-- The `dst` of a row is a group, or a group with its full mask behind a slash.
pub data LeadsTo (parse_ipv6 : Text → Option ℕ) (dst : Text) (ip : IpAddr) : Type 0 where
  unmasked :
      split_once 47 dst ≡ none
      → parse_ip parse_ipv6 dst ≡ some ip
      → IsGroup ip
      → LeadsTo parse_ipv6 dst ip
  masked :
      (address mask : Text)
      → split_once 47 dst ≡ some (address, mask)
      → parse_ip parse_ipv6 address ≡ some ip
      → parse_u8 mask ≡ some (full_mask ip)
      → IsGroup ip
      → LeadsTo parse_ipv6 dst ip

is_multicast_iff : (ip : IpAddr) → (is_multicast ip ≡ true) ↔ IsGroup ip
is_multicast_iff (v4 a) = ground arith
is_multicast_iff (v6 a) = ground arith

is_exact_iff : (ip : IpAddr) (mask : ℕ) → (is_exact ip mask ≡ true) ↔ (mask ≡ full_mask ip)
is_exact_iff (v4 a) mask = ground arith
is_exact_iff (v6 a) mask = ground arith

both_true : (a b : Bool) → (a && b) ≡ true → (a ≡ true) × (b ≡ true)
both_true a b h = ground (arith, h)

group_of_row-LeadsTo :
    (parse_ipv6 : Text → Option ℕ) (dst : Text) (ip : IpAddr)
    → group_of_row parse_ipv6 dst ≡ some ip
    → LeadsTo parse_ipv6 dst ip
unfolding group_of_row
group_of_row-LeadsTo parse_ipv6 dst ip h = elim (Option-cases (split_once 47 dst)) [
  | inl e ↦
      let p = bind-eq-some (parse_ip parse_ipv6 dst) _ (rw e at h) in
      let w = when-eq-some (is_multicast p.0) p.0 p.2 in
      unmasked e (p.1 ∙ ap some w.1) ((is_multicast_iff ip).0 (ap is_multicast (sym w.1) ∙ w.0))
  | inr (q, e) ↦
      let p = bind-eq-some (parse_ip parse_ipv6 q.0) _ (rw e at h) in
      let r = bind-eq-some (parse_u8 q.1) _ p.2 in
      let w = when-eq-some (is_multicast p.0 && is_exact p.0 r.0) p.0 r.2 in
      let b = both_true (is_multicast p.0) (is_exact p.0 r.0) w.0 in
      masked q.0 q.1 e (p.1 ∙ ap some w.1)
        (r.1 ∙ ap some ((is_exact_iff p.0 r.0).0 b.1 ∙ ap full_mask w.1))
        ((is_multicast_iff ip).0 (ap is_multicast (sym w.1) ∙ b.0))
]

LeadsTo-group_of_row :
    (parse_ipv6 : Text → Option ℕ) (dst : Text) (ip : IpAddr)
    → LeadsTo parse_ipv6 dst ip
    → group_of_row parse_ipv6 dst ≡ some ip
unfolding group_of_row
LeadsTo-group_of_row parse_ipv6 dst ip (unmasked e p g) = rw (e, p, (is_multicast_iff ip).1 g) refl
LeadsTo-group_of_row parse_ipv6 dst ip (masked address mask e p m g) =
    rw (e, p, m, (is_multicast_iff ip).1 g, (is_exact_iff ip (full_mask ip)).1 refl) refl

key_injective : (a b : IpAddr) → key_eq (key a) (key b) ≡ true → a ≡ b
key_injective (v4 a) (v4 b) h = ap v4 (ground (arith, h))
key_injective (v4 a) (v6 b) h = absurd (ground (arith, h))
key_injective (v6 a) (v4 b) h = absurd (ground (arith, h))
key_injective (v6 a) (v6 b) h = ap v6 (ground (arith, h))

key_eq_refl : (a : IpAddr) → key_eq (key a) (key a) ≡ true
key_eq_refl (v4 a) = ground arith
key_eq_refl (v6 a) = ground arith

or_true : (a b : Bool) → (a || b) ≡ true → (a ≡ true) ⊎ (b ≡ true)
or_true a b h = ground (arith, h)

module _ (parse_ipv6 : Text → Option ℕ) (ip : IpAddr) where
  found-LeadsTo :
      (rows : List Text)
      → contains (key ip) (map key (filter_map (group_of_row parse_ipv6) rows)) ≡ true
      → Any (λ dst. LeadsTo parse_ipv6 dst ip) rows
  unfolding filter_map
  found-LeadsTo [] h = cc
  found-LeadsTo (dst ∷ rows) h = elim (Option-cases (group_of_row parse_ipv6 dst)) [
    | inl e ↦ inr (found-LeadsTo rows (rw e at h))
    | inr (a, e) ↦
        elim (or_true (key_eq (key ip) (key a))
          (contains (key ip) (map key (filter_map (group_of_row parse_ipv6) rows))) (rw e at h)) [
            | inl same ↦ inl (
                group_of_row-LeadsTo parse_ipv6 dst ip
                  (e ∙ ap some (sym (key_injective ip a same))))
            | inr later ↦ inr (found-LeadsTo rows later)
          ]
  ]

  LeadsTo-found :
      (rows : List Text)
      → Any (λ dst. LeadsTo parse_ipv6 dst ip) rows
      → contains (key ip) (map key (filter_map (group_of_row parse_ipv6) rows)) ≡ true
  unfolding filter_map
  LeadsTo-found [] h = absurd h
  LeadsTo-found (dst ∷ rows) (inl l) =
      rw (LeadsTo-group_of_row parse_ipv6 dst ip l, key_eq_refl ip) refl
  LeadsTo-found (dst ∷ rows) (inr h) = elim (Option-cases (group_of_row parse_ipv6 dst)) [
    | inl e ↦ rw e (LeadsTo-found rows h)
    | inr (a, e) ↦ rw e (ground (arith, LeadsTo-found rows h))
  ]

  pub found_iff :
      (rows : List Text)
      → (contains (key ip) (map key (filter_map (group_of_row parse_ipv6) rows)) ≡ true)
        ↔ Any (λ dst. LeadsTo parse_ipv6 dst ip) rows
  found_iff rows = (found-LeadsTo rows, LeadsTo-found rows)
