-- ===== src/Mqtt.antt =====
-- The client of the message broker: InitMqttComms and CloseMqttComms of src/ServiceContext.cpp, and
-- the example of src/mosquitto_handler.c. A call of the mosquitto library names the client that it
-- is given, none for NULL; the library's answers are not looked at.
pub mod Clients
use onvif_srvd_cmake.Prelude.{
  ℕ, Text, Option, none, some, Bool, true, false, List, [], ◌∷◌, ◌++◌, length, bytes, is_some,
  if◌then◌else◌,
}

pub data MqttCall (C : Type 0) : Type 0 where
  lib_init lib_cleanup : MqttCall C
  -- the client's name, and whether the broker forgets its messages when it leaves
  new_client : Text → Bool → MqttCall C
  -- the broker's host, its port, and the seconds between two signs of life
  connect : Option C → Text → ℕ → ℕ → MqttCall C
  loop_start disconnect destroy : Option C → MqttCall C
  -- whether the thread is stopped by force
  loop_stop : Option C → Bool → MqttCall C
  -- topic, length and bytes of the message, its quality of service, and whether it is retained
  publish : Option C → Text → ℕ → Text → ℕ → Bool → MqttCall C

module _ {C : Type 0} where
  -- InitMqttComms, where mosquitto_new gives `mosq`.
  unfoldable pub init_mqtt_comms : Option C → List (MqttCall C)
  init_mqtt_comms mosq =
      new_client (bytes "onvif_svrd") true ∷ (if is_some mosq then [] else lib_cleanup ∷ [])
      ++ (connect mosq (bytes "localhost") 1883 60 ∷ loop_start mosq ∷ [])

  -- CloseMqttComms
  unfoldable pub close_mqtt_comms : Option C → List (MqttCall C)
  close_mqtt_comms mosq = disconnect mosq ∷ loop_stop mosq true ∷ destroy mosq ∷ []

  -- publish_to_watchman, without its print-outs; `debug` says that the build defines DEBUG.
  unfoldable pub publish_to_watchman : Bool → Option C → ℕ → Text → List (MqttCall C)
  publish_to_watchman debug mosq payload_len payload =
      (if debug then publish mosq (bytes "Test") payload_len payload 0 false ∷ [] else [])
      ++ (publish mosq (bytes "watchman_command_json") payload_len payload 0 false ∷ [])

  -- init_mosquitto: its parameter is overwritten by what mosquitto_new gives, `new`, which the caller
  -- never sees.
  unfoldable pub init_mosquitto : Bool → Option C → Option C → List (MqttCall C)
  unfolding publish_to_watchman
  init_mosquitto debug mosq new =
      let msg : Text = bytes "This is simply a test" in
      lib_init
        ∷ new_client (bytes "onvif_srvd") true
        ∷ (if is_some new then [] else lib_cleanup ∷ [])
      ++ (connect new (bytes "localhost") 1883 60 ∷ publish_to_watchman debug new (length msg) msg)
