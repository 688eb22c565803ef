-- ===== src/Device/Empty.antt =====
-- The handlers of src/ServiceDevice.cpp whose whole body is SOAP_EMPTY_HANDLER: they read no request, leave
-- the response as it is and return SOAP_OK. One constructor stands for one of them.
use onvif_srvd_cmake.Soap.{SoapStatus, soap_ok}

pub data ClockRequest : Type 0 where
  set_system_date_and_time : ClockRequest

pub data SystemRequest : Type 0 where
  set_system_factory_default upgrade_system_firmware system_reboot restore_system get_system_backup
        get_system_log get_system_support_information :
      SystemRequest

pub data ScopeRequest : Type 0 where
  set_scopes add_scopes remove_scopes get_discovery_mode set_discovery_mode
        get_remote_discovery_mode set_remote_discovery_mode get_dp_addresses get_endpoint_reference
        get_remote_user set_remote_user :
      ScopeRequest

pub data UserRequest : Type 0 where
  create_users delete_users set_user get_wsdl_url : UserRequest

pub data NameRequest : Type 0 where
  set_dp_addresses get_hostname set_hostname set_hostname_from_dhcp get_dns set_dns get_ntp set_ntp
        get_dynamic_dns set_dynamic_dns :
      NameRequest

pub data NetworkRequest : Type 0 where
  set_network_interfaces get_network_protocols set_network_protocols get_network_default_gateway
        set_network_default_gateway get_zero_configuration set_zero_configuration
        get_ip_address_filter set_ip_address_filter add_ip_address_filter remove_ip_address_filter
        get_access_policy set_access_policy :
      NetworkRequest

pub data CertificateRequest : Type 0 where
  create_certificate get_certificates get_certificates_status set_certificates_status
        delete_certificates get_pkcs10_request load_certificates get_client_certificate_mode
        set_client_certificate_mode get_relay_outputs set_relay_output_settings
        set_relay_output_state send_auxiliary_command get_ca_certificates
        load_certificate_with_private_key get_certificate_information load_ca_certificates :
      CertificateRequest

pub data Dot1xRequest : Type 0 where
  create_dot1x_configuration set_dot1x_configuration get_dot1x_configuration
        get_dot1x_configurations delete_dot1x_configuration get_dot11_capabilities get_dot11_status
        scan_available_dot11_networks get_system_uris :
      Dot1xRequest

pub data StorageRequest : Type 0 where
  start_firmware_upgrade start_system_restore get_storage_configurations
        create_storage_configuration get_storage_configuration set_storage_configuration
        delete_storage_configuration get_geo_location set_geo_location delete_geo_location :
      StorageRequest

-- All of them, by subject.
pub data EmptyRequest : Type 0 where
  clock : ClockRequest → EmptyRequest
  system : SystemRequest → EmptyRequest
  scope : ScopeRequest → EmptyRequest
  user : UserRequest → EmptyRequest
  name : NameRequest → EmptyRequest
  network : NetworkRequest → EmptyRequest
  certificate : CertificateRequest → EmptyRequest
  dot1x : Dot1xRequest → EmptyRequest
  storage : StorageRequest → EmptyRequest

-- SOAP_EMPTY_HANDLER, without its debug message.
unfoldable pub handle_empty : EmptyRequest → SoapStatus
handle_empty (clock _) = soap_ok
handle_empty (system _) = soap_ok
handle_empty (scope _) = soap_ok
handle_empty (user _) = soap_ok
handle_empty (name _) = soap_ok
handle_empty (network _) = soap_ok
handle_empty (certificate _) = soap_ok
handle_empty (dot1x _) = soap_ok
handle_empty (storage _) = soap_ok
