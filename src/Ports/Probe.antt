-- ===== src/Ports/Probe.antt =====
-- AvailabilityProbe.Find of internal/ports/ports.go. The listener is a parameter, which may leave
-- no listener at all. The environment of the errors and of the world is the caller's.
use ruk.Prelude.{ℕ, Bool, false, List, Option, none, some, String, if◌then◌else◌, any_of}
use ruk.Prelude.Int.{ℤ, is_positive, eq_ℤ, pos_part}
use ruk.Prelude.Results.{Result, ok, err}
use ruk.Ports.{
  PortError, probe_ipv6, probe_ipv4, close_listener, nil_listener, invalid_listened, exhausted,
  default_attempts, valid_port,
}

pub record BindRequest : Type 0 where
  pub network : String
  pub address : String
  pub ipv6_only : Bool

-- BoundListener: its port, and its Close.
pub record BoundListener (E W : Type 0) : Type 0 where
  pub port : ℤ
  pub close : W → Result E (Unit {0}) × W

pub record AvailabilityProbe (E W : Type 0) : Type 0 where
  pub listen : BindRequest → W → Result E (Option (BoundListener E W)) × W
  pub ipv6_unavailable : E → Bool
  pub max_attempts : ℤ

abbrev pub dual_stack : BindRequest
dual_stack = record { network = "tcp6"; address = "[::]:0"; ipv6_only = false }

abbrev pub ipv4 : BindRequest
ipv4 = record { network = "tcp4"; address = "127.0.0.1:0"; ipv6_only = false }

abbrev pub excludes : List ℤ → ℤ → Bool
excludes excluded port = any_of (eq_ℤ port) excluded

module _ {E W : Type 0} (probe : AvailabilityProbe E W) where
  open probe use {listen, ipv6_unavailable, max_attempts}

  abbrev pub found_ipv4 :
      Result E (Option (BoundListener E W)) × W
      → Result (PortError E) (Option (BoundListener E W)) × W
  found_ipv4 (ok bound, w) = (ok bound, w)
  found_ipv4 (err e, w) = (err (probe_ipv4 e), w)

  abbrev pub found_ipv6 :
      Result E (Option (BoundListener E W)) × W
      → Result (PortError E) (Option (BoundListener E W)) × W
  found_ipv6 (ok bound, w) = (ok bound, w)
  found_ipv6 (err e, w) =
      if ipv6_unavailable e then found_ipv4 (listen ipv4 w) else (err (probe_ipv6 e), w)

  -- IPv4 only if IPv6 cannot be used.
  unfoldable pub listen_once : W → Result (PortError E) (Option (BoundListener E W)) × W
  listen_once w = found_ipv6 (listen dual_stack w)

  -- The tests of a port once its listener is closed; none means another attempt.
  abbrev pub judge : List ℤ → ℤ → Result E (Unit {0}) → Option (Result (PortError E) ℤ)
  judge excluded port (err e) = some (err (close_listener e))
  judge excluded port (ok done) =
      if valid_port port
      then (if excludes excluded port then none else some (ok port))
      else some (err (invalid_listened port))

  abbrev pub closed : List ℤ → ℤ → Result E (Unit {0}) × W → Option (Result (PortError E) ℤ) × W
  closed excluded port (r, w) = (judge excluded port r, w)

  abbrev pub examine :
      List ℤ
      → Result (PortError E) (Option (BoundListener E W)) × W
      → Option (Result (PortError E) ℤ) × W
  examine excluded (err e, w) = (some (err e), w)
  examine excluded (ok none, w) = (some (err nil_listener), w)
  examine excluded (ok (some bound), w) = closed excluded bound.port (bound.close w)

  unfoldable pub attempt_once : List ℤ → W → Option (Result (PortError E) ℤ) × W
  unfolding listen_once
  attempt_once excluded w = examine excluded (listen_once w)

  abbrev pub or_again :
      Option (Result (PortError E) ℤ) × W
      → (W → Result (PortError E) ℤ × W)
      → Result (PortError E) ℤ × W
  or_again (none, w) again = again w
  or_again (some r, w) again = (r, w)

  -- The loop, by the attempts that are left of all.
  unfoldable pub find_within : ℕ → ℕ → List ℤ → W → Result (PortError E) ℤ × W
  unfolding attempt_once
  find_within all ℕ.zero excluded w = (err (exhausted all), w)
  find_within all (ℕ.suc left) excluded w =
      or_again (attempt_once excluded w) (find_within all left excluded)

  unfoldable pub find : List ℤ → W → Result (PortError E) ℤ × W
  unfolding find_within
  find excluded w =
      let attempts = if is_positive max_attempts then pos_part max_attempts else default_attempts in
      find_within attempts attempts excluded w
