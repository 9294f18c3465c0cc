-- ===== src/Api/Limits.antt =====
-- The checks that the handlers of src/api/jobs.rs and src/api/cron.rs make of what a client asks for.
use rocktick.Prelude.{String, not, Option, none, some, List, [], ◌∷◌, ◌<>◌, or_else}
use mathlib.Core.Option
use Prim.Native.String
use rocktick.Prelude.Int.{ℤ, pos, ltb_ℤ, scale_ℤ, ◌-ℤ◌, trunc_div, wrap_i32}
use rocktick.Prelude.Result.{Result, ok, err, ◌>>=◌, ◌>>◌, ensure, ok_or, expect}
use rocktick.Prelude.Tables.{get_row}
use rocktick.Db.Jobs.{Timestamp, Tenant}
use rocktick.Db.Tables.{Db}
use rocktick.Scheduler.Tokens.{tenant_key}
use rocktick.Scheduler.Jobs.OneOff.{from_timestamp_secs}
use rocktick.Api.Base.{ApiError, ApiLib, Context, bad_request, join, has}

abbrev first : List String → Option String
first [] = none
first (x ∷ xs) = some x

abbrev invalid_region : Context → String → ApiError
invalid_region ctx region = bad_request (
    some (
      "Invalid region: "
      <> region
      <> ", choose one of the following: "
      <> join ", " ctx.valid_regions))

module _ (ctx : Context) where
  -- The region that is asked for, or else the first.
  unfoldable pub choose_region : Option String → Result ApiError String
  choose_region asked = do
    region ← expect (or_else asked (first ctx.valid_regions))
    ensure (has region ctx.valid_regions) (invalid_region ctx region)
    ok region

  unfoldable pub check_region : Option String → Result ApiError (Unit {0})
  check_region none = ok tt
  check_region (some region) = ensure (has region ctx.valid_regions) (invalid_region ctx region)

-- The tenant that the caller names must exist.
unfoldable pub fetch_tenant : {J : Type 0} → Db J → Option String → Result ApiError (Option Tenant)
fetch_tenant db none = ok none
fetch_tenant db (some id) = elim (get_row tenant_key id db.tenants) [
  | none ↦ err (bad_request (some "Invalid tenant id"))
  | some t ↦ ok (some t)
]

module _ (lib : ApiLib) where
  -- `if let Some(input) && let Some(tenant) && input > limit`.
  abbrev pub at_most : Option ℤ → Option ℤ → (ℤ → ℤ → String) → Result ApiError (Unit {0})
  at_most none limit message = ok tt
  at_most (some n) none message = ok tt
  at_most (some n) (some limit) message =
      ensure (not (ltb_ℤ limit n)) (bad_request (some (message n limit)))

  unfoldable pub within_limits :
      Option Tenant → Option ℤ → Option ℤ → Option ℤ → Result ApiError (Unit {0})
  within_limits tenant timeout_ms max_retries max_response_bytes = do
    at_most timeout_ms (Option.map (λ (t : Tenant). t.max_timeout) tenant) (λ n limit.
        "Your timeout of "
        <> lib.digits n
        <> "ms is higher than your limit of "
        <> lib.digits limit
        <> "ms")
    at_most max_retries (Option.map (λ (t : Tenant). t.max_retries) tenant) (λ n limit.
        "Your max retries of "
        <> lib.digits n
        <> " is higher than your limit of "
        <> lib.digits limit)
    at_most max_response_bytes (Option.map (λ (t : Tenant). t.max_max_response_bytes) tenant)
        (λ n limit.
          "Your max response bytes of "
          <> lib.digits n
          <> " is higher than your limit of "
          <> lib.digits limit)

  -- `body_text.len() as i32 > tenant.max_request_bytes`.
  unfoldable pub check_body : Option Tenant → Option String → Result ApiError (Unit {0})
  check_body (some t) (some body) =
      ensure (not (ltb_ℤ t.max_request_bytes (wrap_i32 (pos (String.len body))))) (
        bad_request (
          some (
            "Your request body of "
            <> lib.digits (pos (String.len body))
            <> " bytes is higher than your limit of "
            <> lib.digits t.max_request_bytes)))
  check_body (some t) none = ok tt
  check_body none body = ok tt

  abbrev pub days : ℤ → ℤ
  days = scale_ℤ 86_400_000_000

  abbrev too_late : Tenant → ℤ → ApiError
  too_late t time_until = bad_request (
      some (
        "Your request is scheduled "
        <> lib.digits (trunc_div time_until 86_400_000_000)
        <> " days in the future, which is higher than your limit of "
        <> lib.digits t.max_delay_days
        <> " days by "
        <> lib.digits (trunc_div (time_until -ℤ days t.max_delay_days) 1_000_000)
        <> " seconds"))

  abbrev check_delay : Timestamp → Option Tenant → Timestamp → Result ApiError (Unit {0})
  check_delay utc_now none time = ok tt
  check_delay utc_now (some t) time =
      ensure (not (ltb_ℤ (days t.max_delay_days) (time -ℤ utc_now))) (too_late t (time -ℤ utc_now))

  -- A second that chrono has, and no later than the tenant may plan.
  unfoldable pub check_time : Timestamp → Option Tenant → ℤ → Result ApiError (Unit {0})
  check_time utc_now tenant execute_at = do
    time ←
        ok_or (from_timestamp_secs lib.in_range execute_at)
          (bad_request (some ("Invalid time " <> lib.digits execute_at)))
    check_delay utc_now tenant time
