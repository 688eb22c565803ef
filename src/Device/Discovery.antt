-- ===== src/Device/Discovery.antt =====
-- What a client learns of the services.
use onvif_srvd_cmake.Prelude.{
  ℕ, Text, Option, none, some, Bool, true, false, not, List, [], ◌∷◌, ◌&&◌, ◌||◌, ◌≡◌, refl, any,
  All, is_some, str_eq, bytes, ◌∙◌, Bool-cases, inl, inr, if◌then◌else◌,
}
use onvif_srvd_cmake.Kernel.{Kernel}
use onvif_srvd_cmake.Context.{ServiceContext}
use onvif_srvd_cmake.Context.Servers.{Junk, get_x_addr, get_server_ip_from_client_ip}
use onvif_srvd_cmake.Device.{
  services, CapabilityCategory, wants_device, wants_media, wants_ptz, Capabilities, add_category,
  categories_loop, or_all, device_at, no_capabilities, all, ptz_namespace, handle_get_services,
  handle_get_capabilities,
}

-- What the loop makes of one service: its description where a category asks for it.
abbrev pub announced : {A : Type 0} → Bool → A → Option A
announced wanted a = if wanted then some a else none

abbrev or_else : {A : Type 0} → Option A → Option A → Option A
or_else none new = new
or_else (some old) new = some old

or_else-none : {A : Type 0} (old : Option A) → old ≡ or_else old none
or_else-none none = refl
or_else-none (some t) = refl

-- One round of the loop for one service, and the rounds behind it.
round :
    {A : Type 0} (old : Option A) (wanted later : Bool) (a : A)
    → or_else (if not (is_some old) && wanted then some a else old) (announced later a)
      ≡ or_else old (announced (wanted || later) a)
round none true later a = refl
round none false later a = refl
round (some old) wanted later a = refl

round_enabled :
    {A : Type 0} (old : Option A) (b wanted later : Bool) (a : A)
    → or_else
        (if b && (not (is_some old) && wanted) then some a else old)
        (announced (b && later) a)
      ≡ or_else old (announced (b && (wanted || later)) a)
round_enabled old true wanted later a = round old wanted later a
round_enabled old false wanted later a = refl

module _ (b : Bool) (a : Text) where
  loop_device :
      (cs : List CapabilityCategory) (r : Capabilities)
      → (categories_loop b a cs r).device
        ≡ or_else r.device (announced (any wants_device cs) (device_at a))
  unfolding categories_loop
  loop_device [] r = or_else-none r.device
  loop_device (c ∷ cs) r =
      loop_device cs (add_category b a c r)
      ∙ round r.device (wants_device c) (any wants_device cs) (device_at a)

  loop_media :
      (cs : List CapabilityCategory) (r : Capabilities)
      → (categories_loop b a cs r).media ≡ or_else r.media (announced (any wants_media cs) a)
  unfolding categories_loop
  loop_media [] r = or_else-none r.media
  loop_media (c ∷ cs) r =
      loop_media cs (add_category b a c r) ∙ round r.media (wants_media c) (any wants_media cs) a

  loop_ptz :
      (cs : List CapabilityCategory) (r : Capabilities)
      → (categories_loop b a cs r).ptz ≡ or_else r.ptz (announced (b && any wants_ptz cs) a)
  unfolding categories_loop
  loop_ptz [] r = go b
    where
      go : (x : Bool) → r.ptz ≡ or_else r.ptz (announced (x && false) a)
      go true = or_else-none r.ptz
      go false = or_else-none r.ptz
  loop_ptz (c ∷ cs) r =
      loop_ptz cs (add_category b a c r) ∙ round_enabled r.ptz b (wants_ptz c) (any wants_ptz cs) a

module _ (k : Kernel) (junk : Junk) (soap_ip : ℕ) (w : k.World) where
  -- Asking for the address changes no setting of the PTZ node.
  get_x_addr-ptz_node :
      (c : ServiceContext) → (get_x_addr k junk soap_ip w c).1.ptz_node ≡ c.ptz_node
  unfolding get_x_addr get_server_ip_from_client_ip
  get_x_addr-ptz_node c = refl

  -- GetCapabilities describes a service exactly if a category asks for it or for all, an empty list
  -- asking for all, and the PTZ service only while it is enabled. Every description has the address
  -- that getXAddr gives, that of the device the version 2.0.
  pub handle_get_capabilities-any :
      (cs : List CapabilityCategory) (c : ServiceContext)
      → ((handle_get_capabilities k junk soap_ip w cs c).1.device
          ≡ announced (any wants_device (or_all cs)) (device_at (get_x_addr k junk soap_ip w c).0))
        × ((handle_get_capabilities k junk soap_ip w cs c).1.media
            ≡ announced (any wants_media (or_all cs)) (get_x_addr k junk soap_ip w c).0)
        × ((handle_get_capabilities k junk soap_ip w cs c).1.ptz
            ≡ announced
                (c.ptz_node.enable && any wants_ptz (or_all cs))
                (get_x_addr k junk soap_ip w c).0)
  unfolding handle_get_capabilities
  handle_get_capabilities-any cs c =
      let x_addr : Text = (get_x_addr k junk soap_ip w c).0 in
      rw (get_x_addr-ptz_node c) (
        loop_device c.ptz_node.enable x_addr (or_all cs) no_capabilities,
        loop_media c.ptz_node.enable x_addr (or_all cs) no_capabilities,
        loop_ptz c.ptz_node.enable x_addr (or_all cs) no_capabilities,
      )

  -- A client finds the PTZ service in the list of the services exactly if it is described when all
  -- capabilities are asked for, and every listed service has the address that getXAddr gives.
  pub handle_get_services-capabilities :
      (include : Bool) (c : ServiceContext)
      → (any
            (λ s. str_eq s.namespace ptz_namespace)
            (handle_get_services k junk soap_ip w include c).1
          ≡ is_some (handle_get_capabilities k junk soap_ip w (all ∷ []) c).1.ptz)
        × All
            (λ s. s.x_addr ≡ (get_x_addr k junk soap_ip w c).0)
            (handle_get_services k junk soap_ip w include c).1
  unfolding handle_get_services services handle_get_capabilities categories_loop bytes
  handle_get_services-capabilities include c =
      elim (Bool-cases (get_x_addr k junk soap_ip w c).1.ptz_node.enable) [
        | inl on ↦ rw on (refl, (refl, (refl, (refl, tt))))
        | inr off ↦ rw off (refl, (refl, (refl, tt)))
      ]
