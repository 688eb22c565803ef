-- ===== src/Lib.antt =====
-- onvif_srvd: models and proofs of the ONVIF server's own logic.
--
-- The program answers ONVIF requests for a camera. One ServiceContext holds the configuration;
-- the handlers of the device, media and PTZ services read it, build responses from it, run shell
-- commands and publish messages. The context asks the network interfaces for their addresses, and
-- RTSP streams are kept in a table of their own. At the start the settings are read from a file or
-- left at their defaults, processing_cfg fills all of this from them, main starts a thread for each
-- stream, and the service loop hands each request to the service that knows its method.
--
--   Profile, Profile/Soap   StreamProfile of src/ServiceContext.cpp: the setters, is_valid, the views
--                           get_profile, get_video_src and their parts
--   PtzNode                 PTZNode of src/ServiceContext.cpp
--   Context                 ServiceContext of src/ServiceContext.cpp: add_profile, set_tz_format;
--     Context/Servers         getServerIpFromClientIp, getXAddr
--     Context/Uris            get_stream_uri, get_snapshot_uri
--     Context/TimeZone        get_time_zone, get_DateTime, get_SystemDateAndTime
--   Eth                     Eth_Dev_Param of src/eth_dev_param.cpp: open, close;
--     Eth/Address             set_ip, get_ip, set_mask, get_mask, get_mask_prefix
--     Eth/Gateway             set_gateway, get_gateway, run_shell_cmd
--     Eth/Hardware            set_hwaddr, get_hwaddr
--   Media                   MediaBindingService of src/ServiceMedia.cpp
--   Ptz                     PTZBindingService of src/ServicePTZ.cpp
--   Device                  DeviceBindingService of src/ServiceDevice.cpp;
--     Device/Interfaces       GetNetworkInterfaces
--   Daemon                  DaemonInfo and Daemon of src/daemon.hpp and src/daemon.cpp: the settings;
--     Daemon/Process          create_pid_file, do_fork, redirect_stdio_to_devnull, daemonize2
--     Daemon/Exits            exit_if_not_daemonized, daemon_error_exit, set_sig_handler
--   Startup                 processing_cfg of src/onvif_srvd.cpp
--     Startup/Defaults        the settings of src/Configuration.hpp without a file
--     Startup/Loading         the settings of a file: src/Configuration.cpp and the constructors of
--                             src/Configuration.hpp, over ConfigLoader of src/ConfigLoader.hpp
--     Startup/Loading/Strings  the three C strings of the settings and the loader that owns their texts
--     Startup/Main            main of src/onvif_srvd.cpp
--     Startup/Acceptance      a description of the settings that the program starts with
--     Startup/Filling         the shape that the two loops of processing_cfg share
--     Startup/Published       which streams of the settings are in the table
--     Startup/Ready           what holds behind processing_cfg
--     Startup/Untouched       what processing_cfg leaves as it was
--   Table                   what the tables of profiles and of streams have in common, an interface
--   Services                requests to all services and sessions of them
--     Services/Stateless      the service without the state of its interfaces
--     Services/Serving        the requests that come in through work of src/GSoapService.cpp
--   GSoap                   GSoapInstance of src/GSoapService.cpp: the constructor and work
--     GSoap/Files             http_get and copy_file
--     GSoap/Lifetime          GSoapWrapper of src/GSoapService.hpp: the gSOAP context from soap_new to
--                             soap_free
--   Mqtt                    InitMqttComms, CloseMqttComms and src/mosquitto_handler.c
--   Rtsp                    RTSPStreamConfig, RTSPStream and GObjWrapper of src/rtsp-streams.hpp and
--                           src/rtsp-streams.cpp
--     Rtsp/References         programs over the handles of GObjWrapper, and the handles of GStreamerRTSP
--     Rtsp/Server             GStreamerRTSP and GStreamerRTSPLoop of src/rtsp-streams.hpp
--     Rtsp/Settings           StreamSettings of src/rtsp-streams.hpp, over a JSON library
--   Soap                    the status and the effects of a handler
--   Kernel                  the system calls, a parameter of the models
--   Prelude                 texts, numbers, maps and streams of the standard library
--   Tests                   runs on concrete inputs
--
-- State and errors. An operation on an object takes its state and returns the new state with its
-- result; an error text is a field, as in the source. A text is the list of its bytes. A pointer
-- that may be NULL is an Option. A std::map is a list of entries in the order of their keys. System
-- calls go through the records Kernel and Posix, whose functions read or change a state of the world;
-- shell commands, pauses and messages to the broker are lists of effects in their order, and so are
-- the calls of gSOAP, GStreamer and mosquitto. What libconfig and gSOAP answer are the records
-- LibConfig, Engine, Json and Server. An exception is a result of its own. Variables that the source does
-- not initialise are arguments of the model (`old`, `junk`), and so are what freed memory holds
-- (`freed`) and whether the build defines DEBUG (`debug`). The handlers whose body is SOAP_EMPTY_HANDLER are constructors of data types, by subject,
-- in Device/Empty, Media/Empty and Ptz/Empty.
--
-- Bounds and fuel. get_mask_prefix shifts a 32-bit mask, so its fuel is 33. The decimal digits of n
-- need fuel n + 1. copy_file makes one round more than the file has bytes at most. The loop of main
-- runs as long as the thread of the service does, so its fuel is an argument. A buffer that sprintf
-- would overflow gives none. ntohl is that of a little-endian host. Integers that are read from a text
-- saturate at the bounds of int, as the standard library does since C++11.
--
-- Not modelled: the SOAP engine, the way from a request to its handler and the data types that are
-- generated for it beyond the fields that the handlers set; GStreamer, mosquitto, libconfig, the
-- threads and the logging, which are libraries.

pub mod Context
pub mod Daemon
pub mod Device
pub mod Eth
pub mod GSoap
pub mod Kernel
pub mod Media
pub mod Mqtt
pub mod Prelude
pub mod Profile
pub mod Ptz
pub mod PtzNode
pub mod Rtsp
pub mod Services
pub mod Soap
pub mod Startup
pub mod Table
pub mod Tests
