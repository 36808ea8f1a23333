-- ===== src/Multicast.antt =====
-- proxy/src/multicast_config.rs: the texts that `ip --json` prints, and the addresses in them.
-- A text is its bytes. Of the standard library's parsers the one for IPv6 is a parameter.
pub mod Decimal
pub mod Routes
pub mod Leads
pub mod Groups
pub mod Sockets
pub use shredstream_proxy.Common.{Text}
use shredstream_proxy.Common.{
  ℕ, ◌+◌, ◌-◌, ◌*◌, ◌/◌, ◌^◌, Bool, true, false, not, ◌&&◌, Option, none, some, List, [], ◌∷◌,
  Result, ok, err, ltb, leb, ◌==◌, if◌then◌else◌,
}

pub data IpAddr : Type 0 where
  v4 v6 : ℕ → IpAddr

-- 224.0.0.0/4 and ff00::/8.
abbrev pub is_multicast : IpAddr → Bool
is_multicast (v4 a) = a / 2 ^ 28 == 14
is_multicast (v6 a) = a / 2 ^ 120 == 255

abbrev pub is_digit : ℕ → Bool
is_digit c = leb 48 c && leb c 57

abbrev pub when {ℓ} : {A : Type ℓ} → Bool → A → Option A
when true a = some a
when false a = none

abbrev pub bind {ℓ κ} : {A : Type ℓ} {B : Type κ} → Option A → (A → Option B) → Option B
bind none f = none
bind (some a) f = f a

-- `Option::map_or`.
abbrev pub map_or {ℓ κ} : {A : Type ℓ} {B : Type κ} → B → (A → B) → Option A → B
map_or b f none = b
map_or b f (some a) = f a

-- `str::split_once`, and `split`, at a byte.
unfoldable pub split_once : ℕ → Text → Option (Text × Text)
split_once c [] = none
split_once c (x ∷ text) =
    let rest = split_once c text in
    if x == c then some ([], text) else bind rest λ p. some (x ∷ p.0, p.1)

abbrev pub onto_first : ℕ → List Text → List Text
onto_first x [] = (x ∷ []) ∷ []
onto_first x (part ∷ parts) = (x ∷ part) ∷ parts

unfoldable pub split : ℕ → Text → List Text
split c [] = [] ∷ []
split c (x ∷ text) = let parts = split c text in if x == c then [] ∷ parts else onto_first x parts

-- `str::parse::<u8>` on the digits, with what the digits before them amount to.
unfoldable pub u8_digits : ℕ → Text → Option ℕ
u8_digits acc [] = some acc
u8_digits acc (c ∷ text) =
    let value = acc * 10 + (c - 48) in
    let rest = u8_digits value text in if is_digit c && ltb value 256 then rest else none

unfoldable pub parse_u8 : Text → Option ℕ
unfolding u8_digits
parse_u8 [] = none
parse_u8 (c ∷ []) = if c == 43 then none else u8_digits 0 (c ∷ [])
parse_u8 (c ∷ d ∷ text) = if c == 43 then u8_digits 0 (d ∷ text) else u8_digits 0 (c ∷ d ∷ text)

-- One number of a dotted address: one to three digits, at most 255, and no leading zero.
unfoldable pub parse_octet : Text → Option ℕ
parse_octet (d ∷ []) = when (is_digit d) (d - 48)
parse_octet (d ∷ e ∷ []) =
    when (is_digit d && is_digit e && not (d == 48)) ((d - 48) * 10 + (e - 48))
parse_octet (d ∷ e ∷ f ∷ []) =
    let value = (d - 48) * 100 + (e - 48) * 10 + (f - 48) in
    when (is_digit d && is_digit e && is_digit f && not (d == 48) && ltb value 256) value
parse_octet _ = none

unfoldable pub four_octets : List Text → Option ℕ
unfolding parse_octet
four_octets (p ∷ q ∷ r ∷ s ∷ []) = bind (parse_octet p) λ a. bind (parse_octet q) λ b.
    bind (parse_octet r) λ c. bind (parse_octet s) λ d. some (((a * 256 + b) * 256 + c) * 256 + d)
four_octets _ = none

-- `str::parse::<Ipv4Addr>`.
unfoldable pub parse_ipv4 : Text → Option ℕ
unfolding split four_octets
parse_ipv4 text = four_octets (split 46 text)

-- `str::parse::<IpAddr>`.
unfoldable pub parse_ip : (Text → Option ℕ) → Text → Option IpAddr
unfolding parse_ipv4
parse_ip parse_ipv6 text =
    map_or (bind (parse_ipv6 text) λ a. some (v6 a)) (λ a. some (v4 a)) (parse_ipv4 text)
