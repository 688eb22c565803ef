-- ===== src/Ptz/Empty.antt =====
-- The handlers of src/ServicePTZ.cpp whose whole body is SOAP_EMPTY_HANDLER: they read no request, leave
-- the response as it is and return SOAP_OK. One constructor stands for one of them.
use onvif_srvd_cmake.Soap.{SoapStatus, soap_ok}

pub data CapabilityRequest : Type 0 where
  get_service_capabilities get_configurations : CapabilityRequest

pub data SetPresetRequest : Type 0 where
  set_preset remove_preset : SetPresetRequest

pub data StatusRequest : Type 0 where
  get_status get_configuration : StatusRequest

pub data SetConfigurationRequest : Type 0 where
  set_configuration get_configuration_options : SetConfigurationRequest

pub data SetHomeRequest : Type 0 where
  set_home_position : SetHomeRequest

pub data AuxiliaryRequest : Type 0 where
  send_auxiliary_command absolute_move : AuxiliaryRequest

pub data TourRequest : Type 0 where
  get_preset_tours get_preset_tour get_preset_tour_options create_preset_tour modify_preset_tour
        operate_preset_tour remove_preset_tour get_compatible_configurations :
      TourRequest

-- All of them, by subject.
pub data EmptyRequest : Type 0 where
  capability : CapabilityRequest → EmptyRequest
  set_preset : SetPresetRequest → EmptyRequest
  status : StatusRequest → EmptyRequest
  set_configuration : SetConfigurationRequest → EmptyRequest
  set_home : SetHomeRequest → EmptyRequest
  auxiliary : AuxiliaryRequest → EmptyRequest
  tour : TourRequest → EmptyRequest

-- SOAP_EMPTY_HANDLER, without its debug message.
unfoldable pub handle_empty : EmptyRequest → SoapStatus
handle_empty (capability _) = soap_ok
handle_empty (set_preset _) = soap_ok
handle_empty (status _) = soap_ok
handle_empty (set_configuration _) = soap_ok
handle_empty (set_home _) = soap_ok
handle_empty (auxiliary _) = soap_ok
handle_empty (tour _) = soap_ok
