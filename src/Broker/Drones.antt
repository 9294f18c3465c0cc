-- ===== src/Broker/Drones.antt =====
-- The registration of drones: src/broker/drone.rs. Addresses and networks are those of std and of the
-- crate ipnetwork.
use rocktick.Prelude.{
  ◌≡◌, refl, ◌∙◌, String, Bool, not, ◌&&◌, Option, none, some, List, [], ◌∷◌, map, arith, filter,
  str_eq, find, eq_iff, if◌then◌else◌,
}
use rocktick.Prelude.Int.{ℤ, pos, ltb_ℤ, wrap_i32, ◌+ℤ◌}
use rocktick.Prelude.Result.{Result, ok, err, panic}
use rocktick.Prelude.Tables.{get_row, put_row, UniqueKeys, get_row-put_row, UniqueKeys-put_row}
use rocktick.Db.Jobs.{Timestamp}
use rocktick.Scheduler.Env.{seconds}

-- `IpAddr::from_str`, `IpNetwork::from` and `IpNetwork::to_string`.
pub record IpLib (Ip : Type 0) (Network : Type 0) : Type 0 where
  pub parse_ip : String → Option Ip
  pub network : Ip → Network
  pub display : Network → String

-- The table `drones`.
pub record DroneRow (Network : Type 0) : Type 0 where
  pub id : String
  pub ip : Network
  pub port : ℤ
  pub region : String
  pub last_checkin : Timestamp
  pub checkin_by : Timestamp

abbrev pub drone_key : {Network : Type 0} → DroneRow Network → String
drone_key d = d.id

-- `grpc::DroneCheckinRequest`.
pub record DroneCheckinRequest : Type 0 where
  pub drone_id : String
  pub drone_ip : String
  pub drone_port : ℤ
  pub drone_region : String
  pub drone_time_ms : ℤ

-- `grpc::GetDronesResponse`.
pub record GetDronesResponse : Type 0 where
  pub id : String
  pub ip : String
  pub port : ℤ
  pub region : String

pub data Status : Type 0 where
  invalid_argument internal : Status

module _ {Ip Network : Type 0} (lib : IpLib Ip Network) where
  -- `drone_port as i32`, and the two times of the statement.
  abbrev pub checked_in : DroneCheckinRequest → Ip → Timestamp → DroneRow Network
  checked_in info ip now = record {
    id = info.drone_id;
    ip = lib.network ip;
    port = wrap_i32 info.drone_port;
    region = info.drone_region;
    last_checkin = now;
    checkin_by = now +ℤ seconds 15;
  }

  -- A time that chrono does not have panics, once the row stands.
  abbrev report_back : (ℤ → Bool) → ℤ → Result Status ℤ
  report_back in_range time_ms = if in_range time_ms then ok (time_ms +ℤ pos 9000) else panic

  abbrev with_ip :
      (ℤ → Bool)
      → DroneCheckinRequest
      → Timestamp
      → List (DroneRow Network)
      → Option Ip
      → List (DroneRow Network) × Result Status ℤ
  with_ip in_range info now t none = (t, err invalid_argument)
  with_ip in_range info now t (some ip) =
      (put_row drone_key (checked_in info ip now) t, report_back in_range info.drone_time_ms)

  unfoldable pub handle_checkin :
      (ℤ → Bool)
      → DroneCheckinRequest
      → Timestamp
      → List (DroneRow Network)
      → List (DroneRow Network) × Result Status ℤ
  handle_checkin in_range info now t = with_ip in_range info now t (lib.parse_ip info.drone_ip)

  abbrev pub is_present : String → Timestamp → DroneRow Network → Bool
  is_present id now d = not (str_eq d.id id) && ltb_ℤ now d.checkin_by

  abbrev pub get_drones_response : DroneRow Network → GetDronesResponse
  get_drones_response d = record {
    id = d.id;
    ip = lib.display d.ip;
    port = d.port;
    region = d.region;
  }

  -- The whole stream, where no row fails and the receiver stays.
  unfoldable pub handle_get_drones :
      String → Timestamp → List (DroneRow Network) → List GetDronesResponse
  handle_get_drones id now t = map get_drones_response (filter (is_present id now) t)

module _ {Ip Network : Type 0} (lib : IpLib Ip Network) (me : String) (later : Timestamp) where
  abbrev pub with_id : String → GetDronesResponse → Bool
  with_id id r = str_eq r.id id

  -- What an asker is sent of the row that an id names.
  abbrev shown : Option (DroneRow Network) → Option GetDronesResponse
  shown none = none
  shown (some d) = if is_present lib me later d then some (get_drones_response lib d) else none

  find-none_of :
      (id : String) (t : List (DroneRow Network))
      → get_row drone_key id t ≡ none
      → find (with_id id) (map (get_drones_response lib) (filter (is_present lib me later) t))
        ≡ none
  unfolding find filter get_row
  find-none_of id [] h = refl
  find-none_of id (d ∷ t) h = ground (arith, find-none_of id t)

  find-shown :
      (id : String) (t : List (DroneRow Network))
      → UniqueKeys drone_key t
      → find (with_id id) (map (get_drones_response lib) (filter (is_present lib me later) t))
        ≡ shown (get_row drone_key id t)
  unfolding find filter get_row
  find-shown id [] u = refl
  find-shown id (d ∷ t) u =
      ground (arith, find-shown id t u.1, find-none_of id t, eq_iff d.id id, u.0)

  -- What an asker is sent of a drone that has just checked in: itself nothing, and another the
  -- reported data, until fifteen seconds have passed.
  abbrev pub announced : DroneCheckinRequest → Ip → Timestamp → Option GetDronesResponse
  announced info ip now =
      if str_eq info.drone_id me
      then none
      else if ltb_ℤ later (now +ℤ pos 15_000_000)
      then some (record {
        id = info.drone_id;
        ip = lib.display (lib.network ip);
        port = wrap_i32 info.drone_port;
        region = info.drone_region;
      })
      else none

  -- After a check-in with a readable address, another drone that asks is sent the reported id,
  -- address, port and region until fifteen seconds have passed, the drone itself is not, and what is
  -- sent of another id stays.
  pub handle_checkin-handle_get_drones :
      (in_range : ℤ → Bool) (info : DroneCheckinRequest) (now : Timestamp) (id : String) (ip : Ip)
      (t : List (DroneRow Network))
      → UniqueKeys drone_key t
      → lib.parse_ip info.drone_ip ≡ some ip
      → let t' = (handle_checkin lib in_range info now t).0 in
        find (with_id id) (handle_get_drones lib me later t') ≡ (
          if str_eq info.drone_id id
          then announced info ip now
          else find (with_id id) (handle_get_drones lib me later t))
  unfolding handle_checkin handle_get_drones
  handle_checkin-handle_get_drones in_range info now id ip t u parsed =
      let new = checked_in lib info ip now in
      rw parsed (
        find-shown id (put_row drone_key new t) (UniqueKeys-put_row drone_key new t u)
        ∙ rw (get_row-put_row drone_key new id t) (ground (arith, find-shown id t u)))
