-- ===== src/Multicast/Decimal.antt =====
-- proxy/src/multicast_config.rs: a dotted address parses back, and every parsed number is in range.
use shredstream_proxy.Common.{
  ℕ, ◌+◌, ◌-◌, ◌*◌, ◌/◌, ◌%◌, ◌^◌, ◌<◌, ◌≡◌, ◌≢◌, refl, ◌∙◌, ap, Bool, true, false, Bool-cases, inl,
  inr, Option, none, some, List, [], ◌∷◌, ◌++◌, ltb, if◌then◌else◌, All, arith,
}
use shredstream_proxy.Multicast.{
  Text, split, split_once, bind, when, u8_digits, parse_u8, parse_octet, four_octets, parse_ipv4,
}

-- A number below 256 in decimal.
unfoldable pub print_octet : ℕ → Text
print_octet n =
    if ltb n 10
    then (48 + n) ∷ []
    else (if ltb n 100
        then (48 + n / 10) ∷ (48 + n % 10) ∷ []
        else (48 + n / 100) ∷ (48 + n / 10 % 10) ∷ (48 + n % 10) ∷ [])

abbrev dot : Text → Text → Text
dot text rest = text ++ 46 ∷ rest

-- `Display` of an `Ipv4Addr`.
unfoldable pub print_ipv4 : ℕ → Text
print_ipv4 a = dot (print_octet (a / 2 ^ 24)) (
    dot (print_octet (a / 2 ^ 16 % 256))
      (dot (print_octet (a / 2 ^ 8 % 256)) (print_octet (a % 256))))

-- Bytes past `/` and `.`, such as the digits.
abbrev pub IsPlain : Text → Type 0
IsPlain text = All (λ c. 47 < c) text

print_octet-IsPlain : (n : ℕ) → IsPlain (print_octet n)
unfolding print_octet
print_octet-IsPlain n = elim (Bool-cases (ltb n 10)) [
  | inl e ↦ rw e (omega arith, tt)
  | inr e ↦ rw e elim (Bool-cases (ltb n 100)) [
    | inl f ↦ rw f (omega arith, (omega arith, tt))
    | inr f ↦ rw f (omega arith, (omega arith, (omega arith, tt)))
  ]
]

parse_octet-print_octet : (n : ℕ) → n < 256 → parse_octet (print_octet n) ≡ some n
unfolding parse_octet print_octet
parse_octet-print_octet n h = ground arith

split-IsPlain : (text : Text) → IsPlain text → split 46 text ≡ text ∷ []
unfolding split
split-IsPlain [] h = refl
split-IsPlain (x ∷ text) h = rw (split-IsPlain text h.1) (ground arith)

split-dot : (text rest : Text) → IsPlain text → split 46 (text ++ 46 ∷ rest) ≡ text ∷ split 46 rest
unfolding split
split-dot [] rest h = refl
split-dot (x ∷ text) rest h = rw (split-dot text rest h.1) (ground arith)

abbrev pub NoSlash : Text → Type 0
NoSlash text = All (λ c. c ≢ 47) text

NoSlash-of : (text : Text) → IsPlain text → NoSlash text
NoSlash-of [] h = tt
NoSlash-of (x ∷ text) h = (omega arith, NoSlash-of text h.1)

NoSlash-append : (text rest : Text) → NoSlash text → NoSlash rest → NoSlash (text ++ rest)
NoSlash-append [] rest h k = k
NoSlash-append (x ∷ text) rest h k = (h.0, NoSlash-append text rest h.1 k)

pub split_once-slash :
    (text rest : Text) → NoSlash text → split_once 47 (text ++ 47 ∷ rest) ≡ some (text, rest)
unfolding split_once
split_once-slash [] rest h = refl
split_once-slash (x ∷ text) rest h = rw (split_once-slash text rest h.1) (ground (arith, h.0))

pub split_once-none : (text : Text) → NoSlash text → split_once 47 text ≡ none
unfolding split_once
split_once-none [] h = refl
split_once-none (x ∷ text) h = rw (split_once-none text h.1) (ground (arith, h.0))

octets_of :
    (a : ℕ)
    → a < 2 ^ 32
    → ((a / 2 ^ 24 * 256 + a / 2 ^ 16 % 256) * 256 + a / 2 ^ 8 % 256) * 256 + a % 256 ≡ a
octets_of a h = omega arith

split-print_ipv4 :
    (a : ℕ)
    → split 46 (print_ipv4 a)
      ≡ print_octet (a / 2 ^ 24)
        ∷ print_octet (a / 2 ^ 16 % 256)
        ∷ print_octet (a / 2 ^ 8 % 256)
        ∷ print_octet (a % 256)
        ∷ []
unfolding print_ipv4
split-print_ipv4 a =
    split-dot (print_octet (a / 2 ^ 24)) _ (print_octet-IsPlain _)
    ∙ ap (λ x. print_octet (a / 2 ^ 24) ∷ x)
        (split-dot (print_octet (a / 2 ^ 16 % 256)) _ (print_octet-IsPlain _)
          ∙ ap (λ x. print_octet (a / 2 ^ 16 % 256) ∷ x)
              (split-dot (print_octet (a / 2 ^ 8 % 256)) _ (print_octet-IsPlain _)
                ∙ ap (λ x. print_octet (a / 2 ^ 8 % 256) ∷ x)
                    (split-IsPlain (print_octet (a % 256)) (print_octet-IsPlain _))))

-- An IPv4 address, printed, parses to itself.
pub parse_ipv4-print_ipv4 : (a : ℕ) → a < 2 ^ 32 → parse_ipv4 (print_ipv4 a) ≡ some a
unfolding parse_ipv4 four_octets
parse_ipv4-print_ipv4 a h =
    rw
      (
        split-print_ipv4 a,
        parse_octet-print_octet (a / 2 ^ 24) (omega arith),
        parse_octet-print_octet (a / 2 ^ 16 % 256) (omega arith),
        parse_octet-print_octet (a / 2 ^ 8 % 256) (omega arith),
        parse_octet-print_octet (a % 256) (omega arith),
      )
      (ap some (octets_of a h))

pub print_ipv4-NoSlash : (a : ℕ) → NoSlash (print_ipv4 a)
unfolding print_ipv4
print_ipv4-NoSlash a =
    NoSlash-append (print_octet (a / 2 ^ 24)) _ (NoSlash-of _ (print_octet-IsPlain _)) (
      omega arith,
      NoSlash-append (print_octet (a / 2 ^ 16 % 256)) _ (NoSlash-of _ (print_octet-IsPlain _)) (
        omega arith,
        NoSlash-append (print_octet (a / 2 ^ 8 % 256)) _ (NoSlash-of _ (print_octet-IsPlain _))
            (omega arith, NoSlash-of _ (print_octet-IsPlain _)),
      ),
    )

-- What stands behind a chain of options that gave a value.
pub bind-eq-some {ℓ κ} :
    {A : Type ℓ} {B : Type κ} (o : Option A) (f : A → Option B) {b : B}
    → bind o f ≡ some b
    → (a : A) × (o ≡ some a) × (f a ≡ some b)
bind-eq-some none f h = cc
bind-eq-some (some a) f h = (a, refl, h)

pub when-eq-some {ℓ} :
    {A : Type ℓ} (b : Bool) (x : A) {y : A} → when b x ≡ some y → (b ≡ true) × (x ≡ y)
when-eq-some true x h = (refl, cc)
when-eq-some false x h = cc

parse_octet-lt : (text : Text) (n : ℕ) → parse_octet text ≡ some n → n < 256
unfolding parse_octet
parse_octet-lt [] n h = ground arith
parse_octet-lt (d ∷ []) n h = ground arith
parse_octet-lt (d ∷ e ∷ []) n h = ground arith
parse_octet-lt (d ∷ e ∷ f ∷ []) n h = ground arith
parse_octet-lt (d ∷ e ∷ f ∷ g ∷ text) n h = ground arith

four_octets-lt : (parts : List Text) (a : ℕ) → four_octets parts ≡ some a → a < 2 ^ 32
unfolding four_octets
four_octets-lt (p ∷ q ∷ r ∷ s ∷ []) a h =
    let i = bind-eq-some (parse_octet p) _ h in
    let j = bind-eq-some (parse_octet q) _ i.2 in
    let k = bind-eq-some (parse_octet r) _ j.2 in
    let l = bind-eq-some (parse_octet s) _ k.2 in
    let bi = parse_octet-lt p i.0 i.1 in
    let bj = parse_octet-lt q j.0 j.1 in
    let bk = parse_octet-lt r k.0 k.1 in let bl = parse_octet-lt s l.0 l.1 in ground (arith, l.2)
four_octets-lt [] a h = ground arith
four_octets-lt (p ∷ []) a h = ground arith
four_octets-lt (p ∷ q ∷ []) a h = ground arith
four_octets-lt (p ∷ q ∷ r ∷ []) a h = ground arith
four_octets-lt (p ∷ q ∷ r ∷ s ∷ t ∷ parts) a h = ground arith

u8_digits-lt : (acc : ℕ) (text : Text) (n : ℕ) → acc < 256 → u8_digits acc text ≡ some n → n < 256
unfolding u8_digits
u8_digits-lt acc [] n h e = ground arith
u8_digits-lt acc (c ∷ text) n h e = ground (arith, u8_digits-lt (acc * 10 + (c - 48)) text n)

-- What parses as a `u8` is below 256.
pub parse_u8-lt : (text : Text) (n : ℕ) → parse_u8 text ≡ some n → n < 256
unfolding parse_u8
parse_u8-lt [] n e = ground arith
parse_u8-lt (c ∷ []) n e = ground (arith, u8_digits-lt 0 (c ∷ []) n)
parse_u8-lt (c ∷ d ∷ text) n e =
    ground (arith, u8_digits-lt 0 (d ∷ text) n, u8_digits-lt 0 (c ∷ d ∷ text) n)

-- What parses as an IPv4 address fits in 32 bits.
pub parse_ipv4-lt : (text : Text) (a : ℕ) → parse_ipv4 text ≡ some a → a < 2 ^ 32
unfolding parse_ipv4
parse_ipv4-lt text a e = four_octets-lt (split 46 text) a e

-- A number below 256, printed, parses to itself.
pub parse_u8-print_octet : (n : ℕ) → n < 256 → parse_u8 (print_octet n) ≡ some n
unfolding parse_u8 print_octet u8_digits
parse_u8-print_octet n h = ground arith
