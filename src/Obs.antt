-- ===== src/Obs.antt =====
-- internal/obs/obs.go: the level of the logger, the health of the process and the answers of the
-- probes. Metrics stand in the state of the parts that write them.
use jetstream_router.Common.{ℕ, Bool, true, false, ◌||◌, [], ◌∷◌, if◌then◌else◌, ◌++◌}
use jetstream_router.Common.Str.{Str, lit, ◌==◌}

pub data Level : Type 0 where
  info : Level
  debug : Level

-- `Logger`, from the value of `LOG_LEVEL`, which is empty where it is not set.
unfoldable pub logger_level : Str → Level
logger_level v = if v == lit "debug" || v == lit "DEBUG" then debug else info

-- `started` is never read, and left out.
pub record Health : Type 0 where
  pub live : Bool
  pub ready : Bool
  pub detail : Str

-- `NewHealth`
unfoldable pub new_health : Health
new_health = record { live = true; ready = false; detail = lit "starting" }

-- `SetReady`: its two stores are one step.
unfoldable pub set_ready : Bool → Str → Health → Health
set_ready ready detail h = record h { ready = ready; detail = detail }

pub record Response : Type 0 where
  pub status : ℕ
  pub body : Str

abbrev newline : Str
newline = 10 ∷ []

-- What the handler of `/healthz` writes.
unfoldable pub healthz : Health → Response
healthz h =
    if h.live
    then record { status = 200; body = lit "ok" ++ newline }
    else record { status = 500; body = [] }

-- What the handler of `/readyz` writes.
unfoldable pub readyz : Health → Response
readyz h = record { status = if h.ready then 200 else 503; body = h.detail ++ newline }

-- The handler that the `ServeMux` of `Serve` picks for a path; `metrics` is what `promhttp` writes,
-- and a path that no pattern names is answered by `http.NotFound`.
unfoldable pub serve : Response → Health → Str → Response
serve metrics h path =
    if path == lit "/healthz"
    then healthz h
    else (if path == lit "/readyz"
        then readyz h
        else (if path == lit "/metrics"
            then metrics
            else record { status = 404; body = lit "404 page not found" ++ newline }))
