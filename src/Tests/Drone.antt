-- ===== src/Tests/Drone.antt =====
-- Jobs that a drone executes, its addresses, and what drones know of each other.
use Prim.Native.Char.{code}
use Prim.Native.String
use rocktick.Prelude.{
  ◌≡◌, ◌<>◌, refl, String, true, false, Option, none, some, List, [], ◌∷◌, All, arith, inl, inr,
  find, filter, sort_by, insert_by, any, ◌==◌, Bool-cases, if◌then◌else◌,
}
use rocktick.Prelude.Int.{pos, wrap_i32, wrap_i32-pos, ◌+ℤ◌, ◌-ℤ◌}
use rocktick.Prelude.Tables.{get_row}
use rocktick.Db.Tables.{scheduled_key}
use rocktick.Secrets.KeyRing.{Bytes}
use rocktick.Broker.HandOut.{lock_jobs, handed_out, is_taken, candidates}
use rocktick.Prelude.Selections.{take, flat_map}
use rocktick.Broker.Once.{is_storable}
use rocktick.Db.Tables.{request_has_nul, response_has_nul, has_nul}
use rocktick.Prelude.Dict.{insert, extend}
use rocktick.Http.{parse_headers}
use rocktick.Broker.Spec.{req_headers, signature, signing_secret, JobSpec, job_spec, get_jobs}
use rocktick.Broker.Drones.{
  IpLib, DroneRow, DroneCheckinRequest, checked_in, with_id, handle_checkin, handle_get_drones,
  handle_checkin-handle_get_drones,
}
use rocktick.Drone.Address.{
  v4, SocketAddr, NetLib, Allowed, is_private_ip, resolve_public_ip, resolve_public_ip-Allowed,
}
use rocktick.Drone.Execute.{Attempt, replied, execution, text_headers, read_body}
use rocktick.Drone.Body.{arrived, limited, read_body-limited}
use rocktick.Drone.Timing.{Punctual, get_jobs-Punctual}
use rocktick.Drone.Answer.{Executed, Among, get_jobs-Executed}
use rocktick.Drone.Sync.{refresh_drones, has_slash, refresh_drones-handle_get_drones}
use rocktick.Tests.Fixtures.{env, tenant}
use rocktick.Tests.HandOut.{always, db, db-UniqueKeys, job, keys, request}

get_jobs-Punctual_example : All (Punctual (pos 100_000) 17) (get_jobs keys env "eu" 5 db).1
get_jobs-Punctual_example =
    get_jobs-Punctual keys env "eu" db 5 (pos 100_000) 17 db-UniqueKeys (omega arith)

abbrev lossy : Bytes → String
lossy b = "ok"

abbrev reply : Attempt
reply = replied (record {
  status = 200;
  is_success = true;
  headers = ("content-type", some "text/plain") ∷ [];
  chunks = some (104 ∷ 105 ∷ []) ∷ [];
})

abbrev spec : JobSpec
spec =
    job_spec keys env
      (record { job = job; lock_nonce = pos 100; tenant = some tenant; request = request })

spec-Among : Among spec (get_jobs keys env "eu" 5 db).1
unfolding get_jobs handed_out is_taken candidates take flat_map filter sort_by insert_by get_row any
    ◌+ℤ◌ ◌-ℤ◌
spec-Among = inl refl

job_named : get_row scheduled_key spec.job_id db.scheduled_jobs ≡ some job
unfolding get_row
job_named = refl

spec-is_storable : is_storable env always (execution lossy spec reply (pos 101)) ≡ true
unfolding request_has_nul response_has_nul has_nul any execution text_headers filter req_headers
    signature signing_secret insert parse_headers extend
spec-is_storable = refl

get_jobs-Executed_example :
    Executed env always (execution lossy spec reply (pos 101)) (lock_jobs env "eu" db)
get_jobs-Executed_example =
    get_jobs-Executed keys env env always lossy "eu" db 5 spec job reply (pos 101) db-UniqueKeys
      spec-Among job_named refl (wrap_i32-pos 100 (omega arith))
      (unfold lock_jobs get_row any in (refl, refl, refl, refl, refl)) spec-is_storable

abbrev chunks : List (Option Bytes)
chunks = some (1 ∷ 2 ∷ []) ∷ some (3 ∷ 4 ∷ []) ∷ none ∷ []

read_body-limited_example :
    read_body (some (pos 3)) chunks ≡ limited (some (pos 3)) (arrived chunks)
read_body-limited_example = read_body-limited (some (pos 3)) chunks

abbrev public_addr : SocketAddr
public_addr = record { ip = v4 93 184 216 34; port = 80 }

abbrev private_addr : SocketAddr
private_addr = record { ip = v4 10 0 0 1; port = 80 }

abbrev net : NetLib
net = record {
  parse_url = λ t. some (record { scheme = "http"; host = some "example.com"; port = none });
  lookup_host = λ h p. some (private_addr ∷ public_addr ∷ []);
}

resolved : resolve_public_ip net false "http://example.com/" ≡ some public_addr
unfolding resolve_public_ip is_private_ip find
resolved = refl

resolve_public_ip-Allowed_example : Allowed net false "http://example.com/" public_addr
resolve_public_ip-Allowed_example =
    resolve_public_ip-Allowed net false "http://example.com/" public_addr (omega arith) resolved

-- Addresses and networks as texts.
abbrev lib : IpLib String String
lib = record {
  parse_ip = λ t. if has_slash t then none else some t;
  network = λ ip. ip;
  display = λ n. n <> "/32";
}

lib-display : (n : String) → has_slash (n <> "/32") ≡ true
unfolding has_slash
lib-display String.[] = refl
lib-display (String.◌∷◌ c n) =
    rw (String.append.cons c n "/32")
      (elim (Bool-cases (code c == b'/')) [ inl e ↦ rw e refl | inr e ↦ rw e (lib-display n) ])

lib-parse : (text : String) → has_slash text ≡ true → lib.parse_ip text ≡ none
lib-parse text h = rw h refl

abbrev info : DroneCheckinRequest
info = record {
  drone_id = "drone_2";
  drone_ip = "10.0.0.2";
  drone_port = pos 8000;
  drone_region = "eu";
  drone_time_ms = pos 100_000;
}

abbrev drones : List (DroneRow String)
drones = checked_in lib (record info { drone_id = "drone_1" }) "10.0.0.1" (pos 90_000_000) ∷ []

info-parse : lib.parse_ip info.drone_ip ≡ some "10.0.0.2"
unfolding has_slash
info-parse = refl

handle_checkin-handle_get_drones_example :
    find (with_id lib "drone_1" (pos 101_000_000) "drone_2") (
      handle_get_drones lib "drone_1"
        (pos 101_000_000)
        (handle_checkin lib always info (pos 100_000_000) drones).0)
    ≡ some
        (record { id = "drone_2"; ip = "10.0.0.2/32"; port = wrap_i32 (pos 8000); region = "eu" })
unfolding ◌+ℤ◌
handle_checkin-handle_get_drones_example =
    handle_checkin-handle_get_drones lib "drone_1" (pos 101_000_000) always info (pos 100_000_000)
      "drone_2" "10.0.0.2" drones (unfold get_row in (refl, tt)) info-parse

refresh_drones-handle_get_drones_example :
    refresh_drones lib (handle_get_drones lib "drone_2" (pos 95_000_000) drones) ≡ []
refresh_drones-handle_get_drones_example =
    refresh_drones-handle_get_drones lib "drone_2" (pos 95_000_000) drones lib-display lib-parse
