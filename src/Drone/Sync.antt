-- ===== src/Drone/Sync.antt =====
-- What a drone knows of the others: src/drone/dronesync.rs.
use Prim.Native.Char.{code}
use rocktick.Prelude.{
  ℕ, ◌≡◌, refl, String, Bool, true, false, Option, none, some, List, [], ◌∷◌, map, filter, ◌==◌,
  if◌then◌else◌,
}
use rocktick.Prelude.Int.{ℤ, pos, pos_part, ◌-ℤ◌}
use rocktick.Db.Jobs.{Timestamp}
use rocktick.Drone.Execute.{as_usize}
use rocktick.Broker.Drones.{
  IpLib, DroneRow, GetDronesResponse, get_drones_response, is_present, handle_get_drones,
}

-- `Drone` of src/drone/mod.rs; the port `as usize`.
pub record Drone (Ip : Type 0) : Type 0 where
  pub id : String
  pub ip : Ip
  pub port : ℕ
  pub region : String

-- The wait until the next check-in, in milliseconds; a time that has passed is no wait.
unfoldable pub time_until_checkin : (ℤ → Bool) → ℤ → ℤ → Option ℤ
time_until_checkin in_range checkin_again_at now =
    if in_range checkin_again_at then some (pos (pos_part (checkin_again_at -ℤ now))) else none

module _ {Ip Network : Type 0} (lib : IpLib Ip Network) where
  abbrev with_ip : GetDronesResponse → List (Drone Ip) → Option Ip → List (Drone Ip)
  with_ip d rest none = rest
  with_ip d rest (some ip) =
      record { id = d.id; ip = ip; port = as_usize d.port; region = d.region } ∷ rest

  -- The drones of the stream whose address can be read.
  unfoldable pub refresh_drones : List GetDronesResponse → List (Drone Ip)
  refresh_drones [] = []
  refresh_drones (d ∷ stream) =
      let rest = refresh_drones stream in with_ip d rest (lib.parse_ip d.ip)

unfoldable pub has_slash : String → Bool
has_slash String.[] = false
has_slash (String.◌∷◌ c s) = if code c == b'/' then true else has_slash s

module _ {Ip Network : Type 0} (lib : IpLib Ip Network) where
  all_dropped :
      (rows : List (DroneRow Network))
      → ((n : Network) → has_slash (lib.display n) ≡ true)
      → ((text : String) → has_slash text ≡ true → lib.parse_ip text ≡ none)
      → refresh_drones lib (map (get_drones_response lib) rows) ≡ []
  unfolding refresh_drones
  all_dropped [] shown refused = refl
  all_dropped (d ∷ rows) shown refused =
      rw (refused (lib.display d.ip) (shown d.ip)) (all_dropped rows shown refused)

  -- A network is written with its prefix, `10.0.0.1/32`, and an address is not read from a text that
  -- has a slash, so that a drone knows of no other, whatever the table holds.
  pub refresh_drones-handle_get_drones :
      (id : String) (now : Timestamp) (t : List (DroneRow Network))
      → ((n : Network) → has_slash (lib.display n) ≡ true)
      → ((text : String) → has_slash text ≡ true → lib.parse_ip text ≡ none)
      → refresh_drones lib (handle_get_drones lib id now t) ≡ []
  unfolding handle_get_drones
  refresh_drones-handle_get_drones id now t shown refused =
      all_dropped (filter (is_present lib id now) t) shown refused
