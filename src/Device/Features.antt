-- ===== src/Device/Features.antt =====
-- getDeviceServiceCapabilities of src/ServiceContext.cpp: what the device service can do.
use onvif_srvd_cmake.Prelude.{ℕ, Bool, true, false}

-- tds__DeviceServiceCapabilities: what it says of the network, of security and of the system.
pub record NetworkCapabilities : Type 0 where
  pub ip_filter : Bool
  pub zero_configuration : Bool
  pub ip_version6 : Bool
  pub dyn_dns : Bool
  pub dot11_configuration : Bool
  pub dot1x_configurations : ℕ
  pub hostname_from_dhcp : Bool
  pub ntp : ℕ
  pub dhcpv6 : Bool

pub record SecurityCapabilities : Type 0 where
  pub tls1_0 : Bool
  pub tls1_1 : Bool
  pub tls1_2 : Bool
  pub onboard_key_generation : Bool
  pub access_policy_config : Bool
  pub default_access_policy : Bool
  pub dot1x : Bool
  pub remote_user_handling : Bool
  pub x509_token : Bool
  pub saml_token : Bool
  pub kerberos_token : Bool
  pub username_token : Bool
  pub http_digest : Bool
  pub rel_token : Bool
  pub max_users : ℕ
  pub max_user_name_length : ℕ
  pub max_password_length : ℕ

pub record SystemCapabilities : Type 0 where
  pub discovery_resolve : Bool
  pub discovery_bye : Bool
  pub remote_discovery : Bool
  pub system_backup : Bool
  pub system_logging : Bool
  pub firmware_upgrade : Bool
  pub http_firmware_upgrade : Bool
  pub http_system_backup : Bool
  pub http_system_logging : Bool
  pub http_support_information : Bool
  pub storage_configuration : Bool

pub record DeviceServiceCapabilities : Type 0 where
  pub network : NetworkCapabilities
  pub security : SecurityCapabilities
  pub system : SystemCapabilities

-- getDeviceServiceCapabilities
unfoldable pub get_device_service_capabilities : DeviceServiceCapabilities
get_device_service_capabilities = record {
  network = record {
    ip_filter = false;
    zero_configuration = false;
    ip_version6 = false;
    dyn_dns = false;
    dot11_configuration = false;
    dot1x_configurations = 0;
    hostname_from_dhcp = false;
    ntp = 0;
    dhcpv6 = false;
  };
  security = record {
    tls1_0 = false;
    tls1_1 = false;
    tls1_2 = false;
    onboard_key_generation = false;
    access_policy_config = false;
    default_access_policy = false;
    dot1x = false;
    remote_user_handling = false;
    x509_token = false;
    saml_token = false;
    kerberos_token = false;
    username_token = false;
    http_digest = false;
    rel_token = false;
    max_users = 0;
    max_user_name_length = 0;
    max_password_length = 0;
  };
  system = record {
    discovery_resolve = true;
    discovery_bye = true;
    remote_discovery = true;
    system_backup = false;
    system_logging = false;
    firmware_upgrade = false;
    http_firmware_upgrade = false;
    http_system_backup = false;
    http_system_logging = false;
    http_support_information = false;
    storage_configuration = false;
  };
}
