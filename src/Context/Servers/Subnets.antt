-- ===== src/Context/Servers/Subnets.antt =====
-- Which interface answers a client.
use Prim.Native.Nat.{bit_and}
use onvif_srvd_cmake.Prelude.{
  ℕ, Text, pos, some, Bool, true, List, [], ◌∷◌, ◌≡◌, refl, ◌==◌, bytes, if◌then◌else◌, Bool-cases,
  inl, inr,
}
use onvif_srvd_cmake.Kernel.{Kernel, siocgifaddr, siocgifdstaddr, siocgifnetmask}
use onvif_srvd_cmake.Eth.{Payload, inet, EthDevParam, is_open}
use onvif_srvd_cmake.Eth.Address.{ioctl_get, get_ip, get_ip_text, get_mask, with_payload}
use onvif_srvd_cmake.Context.{ServiceContext}
use onvif_srvd_cmake.Context.Servers.{Junk, server_loop, server_of, get_server_ip_from_client_ip}

-- What the kernel says of an interface: its address and mask as numbers, its address as text.
pub record Report : Type 0 where
  pub ip : ℕ
  pub mask : ℕ
  pub text : Text

abbrev pub holds_client : ℕ → Report → Bool
holds_client client r = bit_and r.ip r.mask == bit_and client r.mask

-- The specification: the first interface whose subnet holds the client, else the local host.
abbrev pub first_server : ℕ → List Report → Text
first_server client [] = bytes "127.0.0.1"
first_server client (r ∷ rs) = if holds_client client r then r.text else first_server client rs

-- With a single interface the client does not matter.
abbrev pub server_spec : ℕ → List Report → Text
server_spec client (r ∷ []) = r.text
server_spec client rs = first_server client rs

module _ (k : Kernel) (w : k.World) where
  -- The interface is open and the kernel answers all requests for it.
  pub record Reports (d : EthDevParam) (r : Report) : Type 0 where
    pub opened : is_open d ≡ true
    pub ip : ioctl_get k siocgifdstaddr d w ≡ some r.ip
    pub mask : ioctl_get k siocgifnetmask d w ≡ some r.mask
    pub addr : ℕ
    pub at_addr : ioctl_get k siocgifaddr d w ≡ some addr
    pub text : k.inet_ntop addr ≡ some r.text

  abbrev pub AllReport : List EthDevParam → List Report → Type 0
  AllReport [] [] = Unit
  AllReport (d ∷ ds) (r ∷ rs) = Reports d r × AllReport ds rs
  AllReport _ _ = ⊥

  -- What the request of an interface holds is not read.
  Reports-with_payload :
      (p : Payload) (d : EthDevParam) (r : Report) → Reports d r → Reports (with_payload p d) r
  Reports-with_payload p d r h = record {
    opened = h.opened;
    ip = h.ip;
    mask = h.mask;
    addr = h.addr;
    at_addr = h.at_addr;
    text = h.text;
  }

  module _ (d : EthDevParam) (r : Report) (h : Reports d r) where
    read_ip : (j : ℕ) → get_ip k (some j) d w ≡ (pos 0, some r.ip, with_payload (inet r.ip) d)
    unfolding get_ip
    read_ip j = simp (h.opened, h.ip)

    read_mask :
        (j : ℕ) → get_mask k (some j) d w ≡ (pos 0, some r.mask, with_payload (inet r.mask) d)
    unfolding get_mask
    read_mask j = simp (h.opened, h.mask)

    read_text :
        (j : Text) → get_ip_text k (some j) d w ≡ (pos 0, some r.text, with_payload (inet h.addr) d)
    unfolding get_ip_text
    read_text j = simp (h.opened, h.at_addr, h.text)

  module _ (junk : Junk) (client : ℕ) where
    -- The loop agrees with the specification, and every interface still answers as before.
    abbrev Agrees : (List Report → Text) → List Report → Text × List EthDevParam → Type 0
    Agrees spec rs out = (out.0 ≡ spec rs) × AllReport out.1 rs

    server_loop-first_server :
        (ds : List EthDevParam) (rs : List Report)
        → AllReport ds rs
        → Agrees (first_server client) rs (server_loop k junk client w ds)
    unfolding server_loop Reports-with_payload
    server_loop-first_server [] [] h = (refl, tt)
    server_loop-first_server [] (r ∷ rs) h = elim h [ ]
    server_loop-first_server (d ∷ ds) [] h = elim h [ ]
    server_loop-first_server (d ∷ ds) (r ∷ rs) (h, hs) =
        let h1 = Reports-with_payload (inet r.ip) d r h in
        let h2 = Reports-with_payload (inet r.mask) d r h in
        let (same, still) = server_loop-first_server ds rs hs in
        rw (read_ip d r h junk.ip, server_loop)
          (rw (read_mask (with_payload (inet r.ip) d) r h1 junk.mask, server_loop)
            (rw (read_text (with_payload (inet r.mask) d) r h2 junk.text, server_loop)
              (elim (Bool-cases (holds_client client r)) [
                | inl here ↦ rw here (refl, (Reports-with_payload (inet h.addr) d r h, hs))
                | inr further ↦ rw further (same, (h2, still))
              ])))

    server_of-server_spec :
        (ds : List EthDevParam) (rs : List Report)
        → AllReport ds rs
        → Agrees (server_spec client) rs (server_of k junk client w ds)
    unfolding server_of
    server_of-server_spec [] [] h = server_loop-first_server [] [] h
    server_of-server_spec [] (r ∷ rs) h = elim h [ ]
    server_of-server_spec (d ∷ []) [] h = elim h [ ]
    server_of-server_spec (d ∷ []) (r ∷ []) (h, _) =
        rw (read_text d r h junk.text, server_of)
          (refl, (Reports-with_payload (inet h.addr) d r h, tt))
    server_of-server_spec (d ∷ []) (r ∷ q ∷ rs) (h, hs) = elim hs [ ]
    server_of-server_spec (d ∷ e ∷ ds) [] h = elim h [ ]
    server_of-server_spec (d ∷ e ∷ ds) (r ∷ []) (h, hs) = elim hs [ ]
    server_of-server_spec (d ∷ e ∷ ds) (r ∷ q ∷ rs) h =
        server_loop-first_server (d ∷ e ∷ ds) (r ∷ q ∷ rs) h

    -- On interfaces for which the kernel answers, the server's address for a client is that of the
    -- only interface, or of the first whose subnet holds the client, or 127.0.0.1. Asking changes
    -- no interface in a way that a later question would notice.
    pub get_server_ip-server_spec :
        (c : ServiceContext) (rs : List Report)
        → AllReport c.eth_ifs rs
        → ((get_server_ip_from_client_ip k junk client w c).0 ≡ server_spec client rs)
          × AllReport (get_server_ip_from_client_ip k junk client w c).1.eth_ifs rs
    unfolding get_server_ip_from_client_ip
    get_server_ip-server_spec c rs h = server_of-server_spec c.eth_ifs rs h
