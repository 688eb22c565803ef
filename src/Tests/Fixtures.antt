-- ===== src/Tests/Fixtures.antt =====
-- A small operating system and the data that the runs share. Addresses are numbers in network byte
-- order on a little-endian host: 192.168.0.1 is 16820416.
use onvif_srvd_cmake.Prelude.{
  ℤ, negsuc, ◌≡◌, ltb, pos_part, neg_part, ℕ, ◌+◌, pos, none, some, true, false, [], ◌∷◌, bytes,
  str_eq, ◌==◌, if◌then◌else◌, refl, inr, arith,
}
use onvif_srvd_cmake.Kernel.{
  Kernel, AddrRequest, siocgifaddr, siocgifdstaddr, siocgifnetmask, lines,
}
use onvif_srvd_cmake.Eth.{EthDevParam, empty_ifreq, zeroed}
use onvif_srvd_cmake.Profile.{StreamProfile, h264, is_valid}
use onvif_srvd_cmake.Profile.Setters.{HasDimensions}
use onvif_srvd_cmake.Context.Profiles.{IsWellFormed}
use onvif_srvd_cmake.PtzNode.{PtzNode}
use onvif_srvd_cmake.Ptz.{Floats}
use onvif_srvd_cmake.Context.{ServiceContext, tz_utc_offset}
use onvif_srvd_cmake.Context.Servers.{Junk}

-- eth0 on socket 3 is 192.168.0.1/24, any other socket 10.0.0.1/24.
abbrev pub address : AddrRequest → ℕ → ℕ
address siocgifaddr fd = if fd == 3 then 16820416 else 16777226
address siocgifdstaddr fd = if fd == 3 then 16820416 else 16777226
address siocgifnetmask fd = 16777215

-- The state counts the sockets; only eth0 has flags.
abbrev pub toy : Kernel
toy = record {
  World = ℕ;
  socket = λ w. (some w, w + 1);
  close = λ fd w. w + 100;
  get_flags = λ fd name w. str_eq name (bytes "eth0");
  get_addr = λ r fd name w. some (address r fd);
  get_hwaddr = λ fd name w. none;
  set_addr = λ r fd name a w. (pos 0, w + 1000);
  set_hwaddr = λ fd name a w. (pos 0, w + 1000);
  inet_pton = λ t. none;
  inet_ntop = λ a. some (if a == 16820416 then bytes "192.168.0.1" else bytes "10.0.0.1");
  inet_ntoa = λ a. bytes "192.168.0.1";
  popen = λ cmd w. (true, w);
  pclose = λ w. (pos 0, w);
  routes = λ w. lines (some (bytes "lo", 0) ∷ some (bytes "eth0", 7) ∷ none ∷ []);
}

abbrev pub eth0 : EthDevParam
eth0 = record {
  sd = some 3;
  opened = true;
  ifr = record { ifr_name = bytes "eth0"; payload = zeroed };
}

abbrev pub eth1 : EthDevParam
eth1 = record {
  sd = some 4;
  opened = true;
  ifr = record { ifr_name = bytes "eth1"; payload = zeroed };
}

abbrev pub closed_eth : EthDevParam
closed_eth = record { sd = none; opened = false; ifr = empty_ifreq }

abbrev pub junk : Junk
junk = record { text = []; ip = 1; mask = 2 }

abbrev pub camera : StreamProfile
camera = record {
  name = bytes "cam";
  width = pos 640;
  height = pos 480;
  url = bytes "rtsp://%s/cam";
  snapurl = bytes "http://%s/cam.jpg";
  type = some h264;
  str_err = [];
}

abbrev pub second : StreamProfile
second = record {
  name = bytes "aux";
  width = pos 320;
  height = pos 240;
  url = bytes "rtsp://cam/aux";
  snapurl = [];
  type = some h264;
  str_err = [];
}

abbrev pub mover : PtzNode
mover = record {
  enable = true;
  move_left = bytes "left";
  move_right = bytes "right";
  move_up = bytes "up";
  move_down = bytes "down";
  move_stop = bytes "stop";
  move_preset = bytes "preset %t now";
  str_err = [];
}

abbrev pub context : ServiceContext
context = record {
  port = pos 8080;
  user = bytes "admin";
  password = bytes "admin";
  manufacturer = bytes "m";
  model = bytes "x";
  firmware_version = bytes "1";
  serial_number = bytes "2";
  hardware_id = bytes "3";
  scopes = [];
  eth_ifs = eth0 ∷ eth1 ∷ [];
  profiles = (bytes "cam", camera) ∷ [];
  ptz_node = mover;
  tz_format = tz_utc_offset;
  str_err = [];
}

pub camera-HasDimensions : HasDimensions camera
camera-HasDimensions = record {
  width = inr (refl, omega arith, omega arith);
  height = inr (refl, omega arith, omega arith);
}

pub context-IsWellFormed : IsWellFormed context
unfolding is_valid bytes
context-IsWellFormed = record {
  sorted = (tt, tt);
  stored = (record { named = refl; valid = refl; dimensions = camera-HasDimensions }, tt);
}

pub one_sign : (z : ℤ) → ltb 0 (pos_part z) ≡ true → ltb 0 (neg_part z) ≡ false
one_sign (pos n) h = refl
one_sign (negsuc n) h = cc

-- Numbers in place of floats.
abbrev pub whole : Floats
whole = record {
  Float = ℤ;
  is_positive = λ z. ltb 0 (pos_part z);
  is_negative = λ z. ltb 0 (neg_part z);
  exclusive = one_sign;
}
