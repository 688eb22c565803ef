-- ===== src/Device.antt =====
-- DeviceBindingService, src/ServiceDevice.cpp: the handlers that answer from the context, and the
-- device capabilities of src/ServiceContext.cpp. A vector of the response starts out empty. The
-- responses that cannot be allocated are left out, as the code does not look at them.
pub mod Discovery
pub mod Empty
pub mod Features
pub mod Interfaces
use onvif_srvd_cmake.Prelude.{
  ℕ, Text, Option, none, some, Bool, true, false, not, List, [], ◌∷◌, ◌++◌, map, is_empty, bytes,
  ◌&&◌, ◌||◌, is_some, if◌then◌else◌,
}
use onvif_srvd_cmake.Kernel.{Kernel}
use onvif_srvd_cmake.Soap.{SoapStatus, soap_ok}
use onvif_srvd_cmake.Context.{ServiceContext}
use onvif_srvd_cmake.Context.Servers.{Junk, get_x_addr}
use onvif_srvd_cmake.Context.TimeZone.{Tm, Environment, SystemDateTime, get_system_date_and_time}
use Features.{DeviceServiceCapabilities, get_device_service_capabilities}
use onvif_srvd_cmake.Media.{MediaCapabilities, get_media_service_capabilities}

-- What a service says of itself; the PTZ capabilities have no fields set.
pub data ServiceCapabilities : Type 0 where
  device : DeviceServiceCapabilities → ServiceCapabilities
  media : MediaCapabilities → ServiceCapabilities
  ptz : ServiceCapabilities

-- tds__Service with the parts of its version.
pub record Service : Type 0 where
  pub namespace : Text
  pub x_addr : Text
  pub major : ℕ
  pub minor : ℕ
  pub capabilities : Option ServiceCapabilities

abbrev pub included : Bool → ServiceCapabilities → Option ServiceCapabilities
included include c = if include then some c else none

abbrev pub ptz_namespace : Text
ptz_namespace = bytes "http://www.onvif.org/ver20/ptz/wsdl"

-- The services that GetServices lists, once the address is known.
unfoldable pub services : Bool → Text → ServiceContext → List Service
services include_capability x_addr c =
    record {
      namespace = bytes "http://www.onvif.org/ver10/device/wsdl";
      x_addr = x_addr;
      major = 2;
      minor = 5;
      capabilities = included include_capability (device get_device_service_capabilities);
    }
    ∷ record {
      namespace = bytes "http://www.onvif.org/ver10/media/wsdl";
      x_addr = x_addr;
      major = 2;
      minor = 6;
      capabilities = included include_capability (media (get_media_service_capabilities c));
    }
    ∷ (if c.ptz_node.enable
        then record {
          namespace = ptz_namespace;
          x_addr = x_addr;
          major = 2;
          minor = 4;
          capabilities = included include_capability ptz;
        }
          ∷ []
        else [])

-- tt__CapabilityCategory
pub data CapabilityCategory : Type 0 where
  all analytics device_category events imaging media_category ptz_category : CapabilityCategory

abbrev pub wants_device : CapabilityCategory → Bool
wants_device all = true
wants_device device_category = true
wants_device _ = false

abbrev pub wants_media : CapabilityCategory → Bool
wants_media all = true
wants_media media_category = true
wants_media _ = false

abbrev pub wants_ptz : CapabilityCategory → Bool
wants_ptz all = true
wants_ptz ptz_category = true
wants_ptz _ = false

-- tt__DeviceCapabilities with the versions of its System part. The other parts of it, and that of the
-- media description, are allocated with no field set.
pub record DeviceCapabilities : Type 0 where
  pub x_addr : Text
  pub supported_versions : List (ℕ × ℕ)

-- tt__Capabilities; of the media and the PTZ service it has the address.
pub record Capabilities : Type 0 where
  pub device : Option DeviceCapabilities
  pub media : Option Text
  pub ptz : Option Text

abbrev pub device_at : Text → DeviceCapabilities
device_at x_addr = record { x_addr = x_addr; supported_versions = (2, 0) ∷ [] }

-- The body of the loop of GetCapabilities.
unfoldable pub add_category : Bool → Text → CapabilityCategory → Capabilities → Capabilities
add_category ptz_enable x_addr category r = record {
  device =
      if not (is_some r.device) && wants_device category then some (device_at x_addr) else r.device;
  media = if not (is_some r.media) && wants_media category then some x_addr else r.media;
  ptz = if ptz_enable && (not (is_some r.ptz) && wants_ptz category) then some x_addr else r.ptz;
}

unfoldable pub categories_loop : Bool → Text → List CapabilityCategory → Capabilities → Capabilities
unfolding add_category
categories_loop ptz_enable x_addr [] r = r
categories_loop ptz_enable x_addr (category ∷ rest) r =
    categories_loop ptz_enable x_addr rest (add_category ptz_enable x_addr category r)

abbrev pub no_capabilities : Capabilities
no_capabilities = record { device = none; media = none; ptz = none }

-- An empty list of categories becomes the category All.
abbrev pub or_all : List CapabilityCategory → List CapabilityCategory
or_all [] = all ∷ []
or_all (category ∷ rest) = category ∷ rest

-- `soap_ip` is the client's address in host byte order.
module _ (k : Kernel) (junk : Junk) (soap_ip : ℕ) (w : k.World) where
  unfoldable pub handle_get_services :
      Bool → ServiceContext → SoapStatus × List Service × ServiceContext
  handle_get_services include_capability c =
      let (x_addr, c') = get_x_addr k junk soap_ip w c in
      (soap_ok, services include_capability x_addr c', c')

  unfoldable pub handle_get_capabilities :
      List CapabilityCategory → ServiceContext → SoapStatus × Capabilities × ServiceContext
  handle_get_capabilities categories c =
      let (x_addr, c') = get_x_addr k junk soap_ip w c in
      (soap_ok, categories_loop c'.ptz_node.enable x_addr (or_all categories) no_capabilities, c')

unfoldable pub handle_get_service_capabilities : SoapStatus × DeviceServiceCapabilities
handle_get_service_capabilities = (soap_ok, get_device_service_capabilities)

pub record DeviceInformation : Type 0 where
  pub manufacturer : Text
  pub model : Text
  pub firmware_version : Text
  pub serial_number : Text
  pub hardware_id : Text

unfoldable pub handle_get_device_information : ServiceContext → SoapStatus × DeviceInformation
handle_get_device_information c = (
  soap_ok,
  record {
    manufacturer = c.manufacturer;
    model = c.model;
    firmware_version = c.firmware_version;
    serial_number = c.serial_number;
    hardware_id = c.hardware_id;
  },
)

unfoldable pub handle_get_system_date_and_time :
    Bool → Environment → Tm → Tm → ServiceContext → SoapStatus × Option SystemDateTime
handle_get_system_date_and_time allocated env now utc c =
    (soap_ok, get_system_date_and_time allocated env now utc c)

-- The scopes, each of them fixed.
unfoldable pub handle_get_scopes : ServiceContext → SoapStatus × List Text
handle_get_scopes c = (soap_ok, c.scopes)

-- The names of the users.
unfoldable pub handle_get_users : ServiceContext → SoapStatus × List Text
handle_get_users c = (soap_ok, if not (is_empty c.user) then c.user ∷ [] else [])
