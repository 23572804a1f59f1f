-- ===== src/Server/Network.antt =====
-- packages/core/src/server/networkInfo.ts. What the operating system and the lookup service answer is an
-- argument.
use queueway.Base.{Bool, not, ◌&&◌, String, Option, none, some, List, [], ◌∷◌, ◌++◌, if◌then◌else◌}

pub record NetworkInterface : Type 0 where
  pub is_ipv4 : Bool
  pub internal : Bool
  pub address : String

abbrev pub addresses : List NetworkInterface → List String
addresses [] = []
addresses (i ∷ is) =
    let rest = addresses is in if i.is_ipv4 && not i.internal then i.address ∷ rest else rest

-- The interfaces under each name, in the order of the names.
unfoldable pub get_local_network_ips : List (List NetworkInterface) → List String
get_local_network_ips [] = []
get_local_network_ips (is ∷ rest) = addresses is ++ get_local_network_ips rest

-- The response of the lookup: `none` where the request was aborted or failed; then whether it is ok, and
-- the field `ip` of its JSON, if it is JSON.
pub record Lookup : Type 0 where
  pub lookup_ok : Bool
  pub ip : Option (Option String)

abbrev pub ip_field : Option (Option String) → Option String
ip_field none = none
ip_field (some ip) = ip

unfoldable pub get_public_ip : Option Lookup → Option String
get_public_ip none = none
get_public_ip (some r) = if r.lookup_ok then ip_field r.ip else none
