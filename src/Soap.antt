-- ===== src/Soap.antt =====
-- What the handlers of all services share: the status that they return to gSOAP, and the effects
-- that they have outside the process, in their order.
use onvif_srvd_cmake.Prelude.{ℕ, Text}

pub data SoapStatus : Type 0 where
  soap_ok soap_fault : SoapStatus

-- A shell command run by system(), a pause in microseconds, a message on an MQTT topic.
pub data Effect : Type 0 where
  system : Text → Effect
  usleep : ℕ → Effect
  publish : Text → Text → Effect
