-- ===== src/Arguments.antt =====
-- proxy/src/main.rs: the arguments and their checks.
pub mod Validation
use shredstream_proxy.Common.{
  ℕ, Bool, true, false, ◌&&◌, ◌||◌, Option, none, some, List, [], ◌∷◌, Result, ok, err, Text,
  if◌then◌else◌,
}
use shredstream_proxy.Forwarder.{SocketAddr}
use shredstream_proxy.Multicast.{IpAddr}

pub record CommonArgs : Type 0 where
  pub src_bind_addr : ℕ
  pub src_bind_port : ℕ
  pub multicast_bind_ip : Option IpAddr
  pub multicast_device : Text
  pub multicast_subscribe_port : ℕ
  pub dest_ip_ports : List (SocketAddr × Text)
  pub endpoint_discovery_url : Option Text
  pub discovered_endpoints_port : Option ℕ
  pub metrics_report_interval_ms : ℕ
  pub debug_trace_shred : Bool
  pub grpc_service_port : Option ℕ
  pub public_ip : Option ℕ
  pub num_threads : Option ℕ
  pub coalesce_ms : ℕ
  pub prometheus_bind_addr : Option SocketAddr

pub record ShredstreamArgs : Type 0 where
  pub block_engine_url : Text
  pub auth_url : Option Text
  pub auth_keypair : Text
  pub desired_regions : List Text
  pub common_args : CommonArgs

pub record SubscribeOnlyArgs : Type 0 where
  pub block_engine_url : Text
  pub auth_url : Option Text
  pub auth_keypair : Text
  pub desired_regions : List Text
  pub dest_port : ℕ
  pub public_ip : Option ℕ

pub data ProxySubcommands : Type 0 where
  shredstream : ShredstreamArgs → ProxySubcommands
  forward_only : CommonArgs → ProxySubcommands
  subscribe_only : SubscribeOnlyArgs → ProxySubcommands

pub data StartError : Type 0 where
  io_error : StartError
  both_discovery_arguments : StartError
  no_destinations : StartError

abbrev pub is_some {ℓ} : {A : Type ℓ} → Option A → Bool
is_some none = false
is_some (some a) = true

abbrev pub is_none {ℓ} : {A : Type ℓ} → Option A → Bool
is_none none = true
is_none (some a) = false

abbrev pub no_elements {ℓ} : {A : Type ℓ} → List A → Bool
no_elements [] = true
no_elements (x ∷ xs) = false

-- The two checks of the arguments.
unfoldable pub validate : CommonArgs → Result StartError (Unit {0})
validate args =
    if (is_none args.endpoint_discovery_url && is_some args.discovered_endpoints_port)
      || (is_some args.endpoint_discovery_url && is_none args.discovered_endpoints_port)
    then err both_discovery_arguments
    else (if is_none args.endpoint_discovery_url
          && (is_none args.discovered_endpoints_port && no_elements args.dest_ip_ports)
        then err no_destinations
        else ok tt)

-- `resolve_hostname_port`, with the addresses that the host's resolver gives.
pub data ResolveError : Type 0 where
  resolver_error addr_not_available : ResolveError

unfoldable pub resolve_hostname_port :
    (to_socket_addrs : Text → Option (List SocketAddr))
    → Text
    → Result ResolveError (SocketAddr × Text)
resolve_hostname_port to_socket_addrs hostname_port = elim (to_socket_addrs hostname_port) [
  | none ↦ err resolver_error
  | some addrs ↦ elim addrs [ [] ↦ err addr_not_available | a ∷ rest ↦ ok (a, hostname_port) ]
]
