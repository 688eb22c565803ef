-- ===== src/Media/Empty.antt =====
-- The handlers of src/ServiceMedia.cpp whose whole body is SOAP_EMPTY_HANDLER: they read no request, leave
-- the response as it is and return SOAP_OK. One constructor stands for one of them.
use onvif_srvd_cmake.Soap.{SoapStatus, soap_ok}

pub data AudioRequest : Type 0 where
  get_audio_sources get_audio_outputs create_profile : AudioRequest

pub data ProfileRequest : Type 0 where
  add_video_encoder_configuration add_video_source_configuration add_audio_encoder_configuration
        add_audio_source_configuration add_ptz_configuration add_video_analytics_configuration
        add_metadata_configuration add_audio_output_configuration add_audio_decoder_configuration
        remove_video_encoder_configuration remove_video_source_configuration
        remove_audio_encoder_configuration remove_audio_source_configuration
        remove_ptz_configuration remove_video_analytics_configuration remove_metadata_configuration
        remove_audio_output_configuration remove_audio_decoder_configuration delete_profile :
      ProfileRequest

pub data ConfigurationRequest : Type 0 where
  get_video_source_configurations get_video_encoder_configurations get_audio_source_configurations
        get_audio_encoder_configurations get_video_analytics_configurations
        get_metadata_configurations get_audio_output_configurations get_audio_decoder_configurations
        get_video_source_configuration get_video_encoder_configuration
        get_audio_source_configuration get_audio_encoder_configuration
        get_video_analytics_configuration get_metadata_configuration get_audio_output_configuration
        get_audio_decoder_configuration :
      ConfigurationRequest

pub data CompatibleRequest : Type 0 where
  get_compatible_audio_encoder_configurations get_compatible_audio_source_configurations
        get_compatible_video_analytics_configurations get_compatible_metadata_configurations
        get_compatible_audio_output_configurations get_compatible_audio_decoder_configurations :
      CompatibleRequest

pub data SetConfigurationRequest : Type 0 where
  set_video_source_configuration set_video_encoder_configuration set_audio_source_configuration
        set_audio_encoder_configuration set_video_analytics_configuration set_metadata_configuration
        set_audio_output_configuration set_audio_decoder_configuration :
      SetConfigurationRequest

pub data OptionsRequest : Type 0 where
  get_video_source_configuration_options get_video_encoder_configuration_options
        get_audio_source_configuration_options get_audio_encoder_configuration_options
        get_metadata_configuration_options get_audio_output_configuration_options
        get_audio_decoder_configuration_options get_guaranteed_number_of_video_encoder_instances :
      OptionsRequest

pub data SynchronizationRequest : Type 0 where
  set_synchronization_point : SynchronizationRequest

pub data OsdRequest : Type 0 where
  get_video_source_modes set_video_source_mode get_osds get_osd get_osd_options set_osd create_osd
        delete_osd :
      OsdRequest

-- All of them, by subject.
pub data EmptyRequest : Type 0 where
  audio : AudioRequest → EmptyRequest
  profile : ProfileRequest → EmptyRequest
  configuration : ConfigurationRequest → EmptyRequest
  compatible : CompatibleRequest → EmptyRequest
  set_configuration : SetConfigurationRequest → EmptyRequest
  options : OptionsRequest → EmptyRequest
  synchronization : SynchronizationRequest → EmptyRequest
  osd : OsdRequest → EmptyRequest

-- SOAP_EMPTY_HANDLER, without its debug message.
unfoldable pub handle_empty : EmptyRequest → SoapStatus
handle_empty (audio _) = soap_ok
handle_empty (profile _) = soap_ok
handle_empty (configuration _) = soap_ok
handle_empty (compatible _) = soap_ok
handle_empty (set_configuration _) = soap_ok
handle_empty (options _) = soap_ok
handle_empty (synchronization _) = soap_ok
handle_empty (osd _) = soap_ok
