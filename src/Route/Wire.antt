-- ===== src/Route/Wire.antt =====
-- internal/route/route.go: the JSON of a route's configuration. `encoding/json` and
-- `time.ParseDuration` are arguments.
use jetstream_router.Common.{Bool, Option, none, some, [], if◌then◌else◌}
use jetstream_router.Common.Int.{ℤ}
use jetstream_router.Common.Str.{Str, lit, ◌==◌}
use jetstream_router.Route.{Config}

-- The fields of `wire` that `Decode` fills.
pub record Wire : Type 0 where
  pub cfg : Config
  pub retry_base : Str
  pub block_timeout : Str

-- An error of `UnmarshalJSON`: of `Decode`, or of a duration, with the names of route and field.
pub data WireError : Type 0 where
  bad_json : WireError
  bad_duration : Str → Str → WireError

-- One round of the loop over the durations: the duration that is kept or read.
unfoldable pub read_duration : (Str → Option ℤ) → Str → ℤ → Option ℤ
read_duration parse raw kept = if raw == [] then some kept else parse raw

unfoldable pub set_durations : (Str → Option ℤ) → Wire → Config × Option WireError
set_durations parse w = elim (read_duration parse w.retry_base w.cfg.retry_base) [
  | none ↦ (w.cfg, some (bad_duration w.cfg.name (lit "retry_base")))
  | some retry ↦
      let cfg = record (w.cfg) { retry_base = retry } in
      elim (read_duration parse w.block_timeout w.cfg.block_timeout) [
        | none ↦ (cfg, some (bad_duration w.cfg.name (lit "block_timeout")))
        | some block ↦ (record cfg { block_timeout = block }, none)
      ]
]

-- `UnmarshalJSON`; `decode` is the strict decoding into `wire`, which holds the configuration that
-- was there before, with what it leaves behind and whether its error is nil, and `parse` is
-- `time.ParseDuration`.
unfoldable pub unmarshal :
    (Str → Config → Wire × Bool) → (Str → Option ℤ) → Str → Config → Config × Option WireError
unmarshal decode parse b c =
    let (w, good) = decode b c in if good then set_durations parse w else (w.cfg, some bad_json)
