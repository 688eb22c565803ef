-- ===== src/Context/Servers.antt =====
-- The address of the server as a client sees it: getServerIpFromClientIp and getXAddr of
-- src/ServiceContext.cpp. The buffers and variables that the getters write to are not initialised;
-- what they hold before is the argument `junk`. Reading an interface writes to its request, so the
-- interfaces come back with the result.
pub mod Subnets
use Prim.Native.Nat.{bit_and}
use onvif_srvd_cmake.Prelude.{
  ℕ, suc, Text, Option, none, some, Bool, List, [], ◌∷◌, ◌++◌, length, bytes, ◌==◌, if◌then◌else◌,
}
use onvif_srvd_cmake.Prelude.Stream.{decimal_ℤ}
use onvif_srvd_cmake.Kernel.{Kernel}
use onvif_srvd_cmake.Eth.{EthDevParam}
use onvif_srvd_cmake.Eth.Address.{get_ip, get_ip_text, get_mask, ntohl}
use onvif_srvd_cmake.Context.{ServiceContext}

pub record Junk : Type 0 where
  pub text : Text
  pub ip : ℕ
  pub mask : ℕ

-- The contents of an out parameter that is not NULL.
abbrev pub contents {ℓ} : {A : Type ℓ} → A → Option A → A
contents junk none = junk
contents junk (some a) = a

abbrev pub localhost : Text
unfolding bytes
localhost = bytes "127.0.0.1"

module _ (k : Kernel) (junk : Junk) (client_ip : ℕ) (w : k.World) where
  -- The text of the first interface whose subnet holds the client.
  unfoldable pub server_loop : List EthDevParam → Text × List EthDevParam
  server_loop [] = (bytes "127.0.0.1", [])
  server_loop (d ∷ ds) =
      let (_, ip, d1) = get_ip k (some junk.ip) d w in
      let (_, mask, d2) = get_mask k (some junk.mask) d1 w in
      let (_, server_ip, d3) = get_ip_text k (some junk.text) d2 w in
      let if_ip : ℕ = contents junk.ip ip in
      let if_mask : ℕ = contents junk.mask mask in
      let rest : Text × List EthDevParam = server_loop ds in
      if bit_and if_ip if_mask == bit_and client_ip if_mask
      then (contents junk.text server_ip, d3 ∷ ds)
      else (rest.0, d2 ∷ rest.1)

  unfoldable pub server_of : List EthDevParam → Text × List EthDevParam
  server_of (d ∷ []) =
      let (_, server_ip, d') = get_ip_text k (some junk.text) d w in
      (contents junk.text server_ip, d' ∷ [])
  server_of ds = server_loop ds

  -- getServerIpFromClientIp
  unfoldable pub get_server_ip_from_client_ip : ServiceContext → Text × ServiceContext
  get_server_ip_from_client_ip c =
      let (server_ip, ds) = server_of c.eth_ifs in (server_ip, record c { eth_ifs = ds })

module _ (k : Kernel) (junk : Junk) (soap_ip : ℕ) (w : k.World) where
  -- getXAddr; `soap_ip` is the client's address in host byte order.
  unfoldable pub get_x_addr : ServiceContext → Text × ServiceContext
  get_x_addr c =
      let (server_ip, c') = get_server_ip_from_client_ip k junk (ntohl soap_ip) w c in
      (bytes "http://" ++ (server_ip ++ (bytes ":" ++ decimal_ℤ c.port)), c')
