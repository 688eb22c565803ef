-- ===== src/GSoap/Rounds.antt =====
-- One round of the service loop, and which contexts it starts with.
use onvif_srvd_cmake.Prelude.{
  ℕ, suc, ℤ, Bool, true, false, not, List, [], ◌∷◌, ◌≡◌, ◌≢◌, ◌↔◌, arith, any, ◌&&◌, if◌then◌else◌,
}
use onvif_srvd_cmake.Context.{ServiceContext}
use onvif_srvd_cmake.GSoap.{
  BoundService, Call, soap_end, dispatch, made, gsoap_instance, Server, each_service, work,
}

-- The services that are asked for the method.
abbrev pub asked : List Call → List BoundService
asked [] = []
asked (dispatch s ∷ cs) = s ∷ asked cs
asked (_ ∷ cs) = asked cs

-- How often the memory of a request is given back.
abbrev pub ends : List Call → ℕ
ends [] = 0
ends (soap_end ∷ cs) = suc (ends cs)
ends (_ ∷ cs) = ends cs

-- The services up to the first one that has the method, with it.
abbrev pub up_to_first : (BoundService → Bool) → List BoundService → List BoundService
up_to_first p [] = []
up_to_first p (s ∷ ss) = s ∷ (if p s then [] else up_to_first p ss)

-- A round fails exactly if the request could be read and no service has its method. It asks the
-- services in their order and no further than the first that has the method, none if the request
-- could not be read; and it gives the memory of the request back once, but never when it fails.
pub work-asked :
    (s : Server)
    → (((work s).0 ≡ 1) ↔ ((s.begins ≡ true) × (any s.has_method (each_service s) ≡ false)))
      × (asked (work s).1 ≡ (if s.begins then up_to_first s.has_method (each_service s) else []))
      × (ends (work s).1 ≡ (if s.begins && not (any s.has_method (each_service s)) then 0 else 1))
unfolding work
work-asked s = ground arith

-- An instance is made exactly from a context with an interface, a scope and a profile, where gSOAP
-- has a context of its own and can bind the port; it then holds this context.
pub gsoap_instance-made_iff :
    (alive : Bool) (bind : ℤ → Bool) (c : ServiceContext)
    → (gsoap_instance alive bind c ≡ made c) ↔ (
        (alive ≡ true)
        × (bind c.port ≡ true)
        × (c.eth_ifs ≢ [])
        × (c.scopes ≢ [])
        × (c.profiles ≢ []))
unfolding gsoap_instance
gsoap_instance-made_iff alive bind c = ground arith
