-- ===== src/Kernel.antt =====
-- What the program uses of the operating system for a network interface: sockets, the interface
-- ioctls, the conversions of arpa/inet.h, popen and /proc/net/route. None of it is code of the
-- repository, so it is a parameter of the models that use it.
use onvif_srvd_cmake.Prelude.{ℕ, Text, ℤ, Option, List, Bool}

-- The requests that read, and those that write, an address of an interface.
pub data AddrRequest : Type 0 where
  siocgifaddr siocgifdstaddr siocgifnetmask : AddrRequest

pub data SetRequest : Type 0 where
  siocsifaddr siocsifnetmask : SetRequest

-- One line of /proc/net/route behind the first: none where fscanf does not read all 11 fields,
-- else the name of the interface and the gateway.
abbrev pub RouteLine : Type 0
RouteLine = Option (Text × ℕ)

-- /proc/net/route: it cannot be opened, it has no first line, or these lines follow the first.
pub data RouteFile : Type 0 where
  missing no_header : RouteFile
  lines : List RouteLine → RouteFile

-- Requests that read do not change the world; they answer none where ioctl returns -1.
pub record Kernel : Type 1 where
  pub World : Type 0
  pub socket : World → Option ℕ × World
  pub close : ℕ → World → World
  pub get_flags : ℕ → Text → World → Bool
  pub get_addr : AddrRequest → ℕ → Text → World → Option ℕ
  pub get_hwaddr : ℕ → Text → World → Option (ℕ × List ℕ)
  pub set_addr : SetRequest → ℕ → Text → ℕ → World → ℤ × World
  pub set_hwaddr : ℕ → Text → List ℕ → World → ℤ × World
  pub inet_pton : Text → Option ℕ
  pub inet_ntop : ℕ → Option Text
  pub inet_ntoa : ℕ → Text
  pub popen : Text → World → Bool × World
  pub pclose : World → ℤ × World
  pub routes : World → RouteFile
