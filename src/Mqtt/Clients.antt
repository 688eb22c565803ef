-- ===== src/Mqtt/Clients.antt =====
-- Which client the broker's library is given.
use onvif_srvd_cmake.Prelude.{true, Option, none, some, Bool, false, ◌≡◌, refl, any, is_some, not}
use onvif_srvd_cmake.Mqtt.{
  MqttCall, connect, loop_start, loop_stop, disconnect, destroy, publish, init_mqtt_comms,
  close_mqtt_comms, publish_to_watchman, init_mosquitto,
}

module _ {C : Type 0} where
  -- The call is given NULL for its client.
  abbrev pub gives_null : MqttCall C → Bool
  gives_null (connect mosq host port keepalive) = not (is_some mosq)
  gives_null (loop_start mosq) = not (is_some mosq)
  gives_null (loop_stop mosq force) = not (is_some mosq)
  gives_null (disconnect mosq) = not (is_some mosq)
  gives_null (destroy mosq) = not (is_some mosq)
  gives_null (publish mosq topic size payload qos retain) = not (is_some mosq)
  gives_null _ = false

  -- A context's client is set up, used and closed without a NULL pointer exactly if mosquitto_new
  -- gave a client; the example's setup too, whatever pointer its caller passed.
  pub init_mqtt_comms-gives_null :
      (debug : Bool) (mosq passed : Option C)
      → (any gives_null (init_mqtt_comms mosq) ≡ not (is_some mosq))
        × (any gives_null (close_mqtt_comms mosq) ≡ not (is_some mosq))
        × (any gives_null (init_mosquitto debug passed mosq) ≡ not (is_some mosq))
  unfolding init_mqtt_comms close_mqtt_comms init_mosquitto publish_to_watchman
  init_mqtt_comms-gives_null true none passed = (refl, refl, refl)
  init_mqtt_comms-gives_null false none passed = (refl, refl, refl)
  init_mqtt_comms-gives_null true (some c) passed = (refl, refl, refl)
  init_mqtt_comms-gives_null false (some c) passed = (refl, refl, refl)
