-- ===== src/Arguments/Validation.antt =====
-- proxy/src/main.rs: which arguments are refused, and how a destination is resolved.
use shredstream_proxy.Common.{
  ℕ, ◌≡◌, refl, sym, subst, none, some, Option-cases, ◌⊎◌, inl, inr, List, [], ◌∷◌, Result, ok, err,
  Text,
}
use shredstream_proxy.Forwarder.{SocketAddr}
use shredstream_proxy.Arguments.{
  CommonArgs, StartError, both_discovery_arguments, no_destinations, validate,
}

-- The reasons for each answer of the checks: discovery is configured wholly or not at all, and
-- there is a destination or a way to discover one.
pub data Validated (args : CommonArgs) : Result StartError (Unit {0}) → Type 0 where
  discovers :
      (url : Text) (port : ℕ)
      → args.endpoint_discovery_url ≡ some url
      → args.discovered_endpoints_port ≡ some port
      → Validated args (ok tt)
  fixed :
      (dest : SocketAddr × Text) (dests : List (SocketAddr × Text))
      → args.endpoint_discovery_url ≡ none
      → args.discovered_endpoints_port ≡ none
      → args.dest_ip_ports ≡ dest ∷ dests
      → Validated args (ok tt)
  url_without_port :
      (url : Text)
      → args.endpoint_discovery_url ≡ some url
      → args.discovered_endpoints_port ≡ none
      → Validated args (err both_discovery_arguments)
  port_without_url :
      (port : ℕ)
      → args.endpoint_discovery_url ≡ none
      → args.discovered_endpoints_port ≡ some port
      → Validated args (err both_discovery_arguments)
  nowhere :
      args.endpoint_discovery_url ≡ none
      → args.discovered_endpoints_port ≡ none
      → args.dest_ip_ports ≡ []
      → Validated args (err no_destinations)

List-cases : {A : Type 0} (xs : List A) → (xs ≡ []) ⊎ ((x : A) × (rest : List A) × (xs ≡ x ∷ rest))
List-cases [] = inl refl
List-cases (x ∷ rest) = inr (x, rest, refl)

Validated-of :
    (args : CommonArgs) {r : Result StartError (Unit {0})}
    → validate args ≡ r
    → Validated args r
    → Validated args (validate args)
Validated-of args e v = subst (Validated args) (sym e) v

-- The checks of the arguments pass exactly if the discovery URL and the discovery port are both
-- given, or neither is and there is a static destination; one of the two without the other is the
-- error that asks for both, and neither with no static destination the error that asks for
-- destinations.
pub validate-Validated : (args : CommonArgs) → Validated args (validate args)
unfolding validate
validate-Validated args = elim (Option-cases args.endpoint_discovery_url) [
  | inl u ↦ elim (Option-cases args.discovered_endpoints_port) [
    | inl p ↦ elim (List-cases args.dest_ip_ports) [
      | inl d ↦ Validated-of args (rw (u, p, d) refl) (nowhere u p d)
      | inr (x, rest, d) ↦ Validated-of args (rw (u, p, d) refl) (fixed x rest u p d)
    ]
    | inr (port, p) ↦ Validated-of args (rw (u, p) refl) (port_without_url port u p)
  ]
  | inr (url, u) ↦ elim (Option-cases args.discovered_endpoints_port) [
    | inl p ↦ Validated-of args (rw (u, p) refl) (url_without_port url u p)
    | inr (port, p) ↦ Validated-of args (rw (u, p) refl) (discovers url port u p)
  ]
]
