-- ===== src/Program.antt =====
-- cmd/router/main.go: the start of the process and its end.
pub mod Boot
pub mod System
use jetstream_router.Common.{ℕ, Option, none, some, List, Result, ok, err, ◌>>=◌}
use jetstream_router.Common.Str.{Str}
use jetstream_router.Common.Maps.{lookup}
use jetstream_router.Routing.{NewError, Router}
use jetstream_router.Routing
use jetstream_router.Route.{Route}
use jetstream_router.Cursor.{Disk, new_cursor}
use jetstream_router.Config.{Config, LoadError}
use jetstream_router.Dispatch.{BuildError, build_routes, wanted, Dispatcher}
use jetstream_router.Obs.{new_health}
use jetstream_router.Ingest.{new}
use jetstream_router.Ingest
use jetstream_router.Ingest.Machine.{Machine, start}

-- `ingestConfig`
unfoldable pub ingest_config : Config → Router → Ingest.Config
ingest_config cfg router = record {
  url = cfg.jetstream.url;
  wanted_collections = wanted cfg.jetstream.wanted_collections router;
  replay_rewind = cfg.jetstream.replay_rewind;
  replay_window = cfg.jetstream.replay_window;
  live_threshold = cfg.jetstream.live_threshold;
  max_lag = cfg.jetstream.max_lag;
  max_frame_bytes = cfg.jetstream.max_frame_bytes;
  idle_timeout = cfg.jetstream.idle_timeout;
  backoff_max = cfg.jetstream.backoff_max;
  commit_every = cfg.jetstream.commit_every;
}

pub data RunError : Type 0 where
  bad_table : NewError → RunError
  unbuilt : BuildError → RunError

-- The ingestor that `run` starts, on the disk as it is.
unfoldable pub launch : Config → Disk → Router → List (Str × Route) → Machine
launch cfg disk router routes =
    start (new (ingest_config cfg router) new_cursor new_health)
      (record { router = router; routes = routes; unknown = 0 }) disk

unfoldable pub boot_with :
    Config → Disk → Router → Result BuildError (List (Str × Route)) → Result RunError Machine
boot_with cfg disk router (err e) = err (unbuilt e)
boot_with cfg disk router (ok routes) = ok (launch cfg disk router routes)

unfoldable pub boot_from : Config → Disk → Result NewError Router → Result RunError Machine
boot_from cfg disk (err e) = err (bad_table e)
boot_from cfg disk (ok router) = boot_with cfg disk router (build_routes cfg router)

-- `run`, up to the start of the ingestor.
unfoldable pub boot : Config → Disk → Result RunError Machine
boot cfg disk = boot_from cfg disk (Routing.new cfg.routing)

-- The code that `main` exits with where the process does not get that far.
unfoldable pub exit_code : Disk → Config × Option LoadError → Option ℕ
exit_code disk (cfg, some e) = some 2
exit_code disk (cfg, none) = elim (boot cfg disk) [ ok _ ↦ none | err _ ↦ some 1 ]
