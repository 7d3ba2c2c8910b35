-- ===== src/Net.antt =====
-- client-request/rust/src/net.rs: addresses of the seed peers. An address of the standard library
-- stands by its family and its printed form.
use dragonfly_sdk.Base.{ℕ, Option, none, some, ◌++◌, String, Text, text, decimal}

pub data IpAddr : Type 0 where
  v4 v6 : Text → IpAddr

unfoldable pub format_socket_addr : IpAddr → ℕ → Text
format_socket_addr (v4 ip) port = ip ++ text ":" ++ decimal port
format_socket_addr (v6 ip) port = text "[" ++ ip ++ text "]:" ++ decimal port

unfoldable pub format_url : String → IpAddr → ℕ → Text
unfolding format_socket_addr
format_url scheme ip port = text scheme ++ text "://" ++ format_socket_addr ip port

-- What the two lookups of the local_ip_address crate give is passed in.
unfoldable pub preferred_local_ip : Option IpAddr → Option IpAddr → Option IpAddr
preferred_local_ip (some ip) local_ipv6 = some ip
preferred_local_ip none local_ipv6 = local_ipv6

-- `to_string` of an address.
abbrev pub show_ip : IpAddr → Text
show_ip (v4 ip) = ip
show_ip (v6 ip) = ip
