-- ===== src/GSoap.antt =====
-- GSoapInstance of src/GSoapService.hpp and src/GSoapService.cpp: what it is made from, and one
-- round of its loop. The calls of gSOAP and of the library for logging are listed in their order;
-- what gSOAP answers is the parameter Server.
pub mod Files
pub mod Lifetime
pub mod Rounds
use onvif_srvd_cmake.Prelude.{
  ℕ, Text, ℤ, Option, none, some, Bool, true, false, not, List, [], ◌∷◌, ◌++◌, bytes, if◌then◌else◌,
}
use onvif_srvd_cmake.Prelude.StdMap.{StdMap}
use onvif_srvd_cmake.Context.{ServiceContext}

-- FOREACH_SERVICE, in its order.
pub data BoundService : Type 0 where
  device_binding media_binding ptz_binding : BoundService

pub data Call : Type 0 where
  soap_new soap_accept soap_stream_fault soap_begin_serve soap_send_fault : Call
  soap_destroy soap_end soap_free : Call
  soap_bind : ℤ → Call
  sleep : ℕ → Call
  log : Text → Call
  dispatch : BoundService → Call

abbrev pub is_nil {ℓ} : {A : Type ℓ} → List A → Bool
is_nil [] = true
is_nil (_ ∷ _) = false

-- The texts of the exceptions that the constructor throws.
pub data Made : Type 0 where
  throws : Text → Made
  exits : Made
  made : ServiceContext → Made

-- checkServiceCtx; none where it throws nothing.
unfoldable pub check_service_ctx : ServiceContext → Option Text
check_service_ctx c =
    if is_nil c.eth_ifs
    then some (bytes "Error: not set no one ehternet interface more details see opt --ifs\n")
    else if is_nil c.scopes
    then some (bytes "Error: not set scopes more details see opt --scope\n")
    else if is_nil c.profiles
    then some (bytes "Error: not set no one profile more details see --help\n")
    else none

-- The constructor: `alive` says that soap_new gave a context, `bind` that a port can be bound. The
-- bind flags, the timeouts and the callback are settings of gSOAP, and `user` points to the copy of
-- the context that the instance holds.
unfoldable pub gsoap_instance : Bool → (ℤ → Bool) → ServiceContext → Made
unfolding check_service_ctx
gsoap_instance alive bind c =
    if not alive
    then throws (bytes "soap context is empty")
    else if not (bind c.port)
    then exits
    else elim (check_service_ctx c) [ some message ↦ throws message | none ↦ made c ]

-- The client's request as gSOAP sees it.
pub record Server : Type 0 where
  -- soap_accept gives a valid socket
  pub accepts : Bool
  -- soap_begin_serve returns 0
  pub begins : Bool
  -- dispatch of this service does not return SOAP_NO_METHOD
  pub has_method : BoundService → Bool

module _ (s : Server) where
  -- FOREACH_SERVICE(DISPATCH_SERVICE, …) with the last else; true where a service had the method.
  unfoldable pub dispatch_services : List BoundService → Bool × List Call
  dispatch_services [] = (false, log (bytes "Unknown service") ∷ [])
  dispatch_services (service ∷ rest) =
      let (known, calls) = dispatch_services rest in
      if s.has_method service
      then (true, dispatch service ∷ soap_send_fault ∷ soap_stream_fault ∷ [])
      else (known, dispatch service ∷ calls)

  abbrev pub each_service : List BoundService
  each_service = device_binding ∷ media_binding ∷ ptz_binding ∷ []

  -- The calls of the end of work, where the request was served or could not be read.
  abbrev pub cleans_up : List Call
  cleans_up = log (bytes "Soap Destroy") ∷ soap_destroy ∷ soap_end ∷ []

  -- The calls before the dispatch. The block behind the test of the socket is run in any case.
  abbrev pub waits : List Call
  waits =
      soap_accept ∷ (if s.accepts then [] else sleep 1 ∷ [])
      ++ (log (bytes "SOAP Invalid Socket") ∷ soap_stream_fault ∷ soap_begin_serve ∷ [])

  -- GSoapInstance::work: 1 on an error, else 0.
  unfoldable pub work : ℕ × List Call
  unfolding dispatch_services
  work =
      let (known, calls) = dispatch_services each_service in
      if not s.begins
      then (0, waits ++ (log (bytes "Process Service") ∷ soap_stream_fault ∷ cleans_up))
      else if known
      then (0, waits ++ (calls ++ cleans_up))
      else (1, waits ++ calls)
