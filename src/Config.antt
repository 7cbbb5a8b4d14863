-- ===== src/Config.antt =====
-- internal/config/config.go: the configuration, its defaults, its validation, and how a file is
-- read over the defaults. Durations are nanoseconds. `encoding/json`, `os.ReadFile` and
-- `time.ParseDuration` are arguments.
pub mod Validate
pub mod Defaults
pub mod Loading
use jetstream_router.Common.{
  Bool, true, false, ◌||◌, Option, none, some, List, [], ◌∷◌, Result, ok, err, ◌>>=◌, if◌then◌else◌,
}
use jetstream_router.Common.Int.{ℤ, pos, leb_ℤ}
use jetstream_router.Common.Str.{Str, lit, ◌==◌}
use jetstream_router.Common.Maps.{lookup}
use jetstream_router.Routing.{Match, Rule, Table, NewError, Router, routes}
use jetstream_router.Routing
use jetstream_router.Route.{policy_drop, policy_block}
use jetstream_router.Route

pub record Thresholds : Type 0 where
  pub engagement : ℤ
  pub engagement_window : ℤ
  pub follow_burst : ℤ
  pub follow_window : ℤ

pub record StateLimits : Type 0 where
  pub max_keys_per_shard : ℤ
  pub dedup_window : ℤ

pub record Jetstream : Type 0 where
  pub url : Str
  pub wanted_collections : List Str
  pub cursor_path : Str
  pub replay_rewind : ℤ
  pub replay_window : ℤ
  pub live_threshold : ℤ
  pub max_lag : ℤ
  pub max_frame_bytes : ℤ
  pub idle_timeout : ℤ
  pub backoff_max : ℤ
  pub commit_every : ℤ

-- `admin_addr` is the only field of `Admin`.
pub record Config : Type 0 where
  pub jetstream : Jetstream
  pub admin_addr : Str
  pub routing : Table
  pub routes : List (Str × Route.Config)
  pub keywords : List Str
  pub languages : List Str
  pub thresholds : Thresholds
  pub state : StateLimits
  pub shutdown : ℤ

abbrev pub rule : Str → Str → Str → Rule
rule collection operation route = record {
  match = record { kind = lit "commit"; collection = collection; operation = operation };
  route = route;
}

-- A `route.Config` with the fields that are not named left zero.
abbrev tuning : ℤ → ℤ → Str → ℤ → Route.Config
tuning buffer workers policy block_timeout = record {
  name = [];
  buffer = buffer;
  workers = workers;
  policy = policy;
  max_attempts = pos 0;
  retry_base = pos 0;
  block_timeout = block_timeout;
}

-- The `Routing` of `Default`.
abbrev pub default_table : Table
default_table = record {
  rules =
      rule [] (lit "delete") (lit "retraction")
      ∷ rule (lit "app.bsky.feed.post") [] (lit "content")
      ∷ rule (lit "app.bsky.feed.like") [] (lit "engagement")
      ∷ rule (lit "app.bsky.feed.repost") [] (lit "engagement")
      ∷ rule (lit "app.bsky.graph.follow") [] (lit "social-graph")
      ∷ [];
  fallback = lit "default";
}

-- `Default`
unfoldable pub default_config : Config
default_config = record {
  jetstream = record {
    url = lit "wss://jetstream2.us-east.bsky.network/subscribe";
    wanted_collections = [];
    cursor_path = lit "/var/lib/jetstream-router/cursor.json";
    replay_rewind = pos 5000000000;
    replay_window = pos 600000000000;
    live_threshold = pos 3000000000;
    max_lag = pos 60000000000;
    max_frame_bytes = pos 1048576;
    idle_timeout = pos 30000000000;
    backoff_max = pos 30000000000;
    commit_every = pos 1000000000;
  };
  admin_addr = lit ":8080";
  routing = default_table;
  routes =
      (lit "content", tuning (pos 4096) (pos 4) policy_drop (pos 0))
      ∷ (lit "engagement", tuning (pos 32768) (pos 8) policy_drop (pos 0))
      ∷ (lit "social-graph", tuning (pos 2048) (pos 2) policy_drop (pos 0))
      ∷ (lit "retraction", tuning (pos 2048) (pos 2) policy_block (pos 2000000000))
      ∷ (lit "default", tuning (pos 2048) (pos 1) policy_drop (pos 0))
      ∷ [];
  keywords = lit "kubernetes" ∷ lit "security" ∷ lit "agent" ∷ lit "bluesky" ∷ [];
  languages = lit "en" ∷ [];
  thresholds = record {
    engagement = pos 100;
    engagement_window = pos 300000000000;
    follow_burst = pos 25;
    follow_window = pos 300000000000;
  };
  state = record { max_keys_per_shard = pos 20000; dedup_window = pos 120000000000 };
  shutdown = pos 25000000000;
}

pub data ConfigError : Type 0 where
  bad_routing : NewError → ConfigError
  no_entry : Str → ConfigError
  bad_threshold : ConfigError
  bad_limit : ConfigError

-- `routing.New`, with its error among those of `Validate`.
unfoldable pub new_router : Table → Result ConfigError Router
new_router t = elim (jetstream_router.Routing.new t) [ ok r ↦ ok r | err e ↦ err (bad_routing e) ]

-- The loop of `Validate` over the routes that the table can produce.
unfoldable pub check_routes : List (Str × Route.Config) → List Str → Result ConfigError (Unit {0})
check_routes m [] = ok tt
check_routes m (name ∷ names) = elim (lookup name m) [
  | none ↦ err (no_entry name)
  | some _ ↦ check_routes m names
]

unfoldable pub check_numbers : Config → Result ConfigError (Unit {0})
check_numbers c =
    if leb_ℤ c.thresholds.engagement (pos 0) || leb_ℤ c.thresholds.follow_burst (pos 0)
    then err bad_threshold
    else (if leb_ℤ c.state.max_keys_per_shard (pos 0) then err bad_limit else ok tt)

-- `Validate`
unfoldable pub validate : Config → Result ConfigError (Unit {0})
validate c = do r ← new_router c.routing; _ ← check_routes c.routes (routes r); check_numbers c

-- `Duration.UnmarshalJSON`: the duration that is left behind, and whether the error is nil.
unfoldable pub unmarshal_duration : (Str → Option Str) → (Str → Option ℤ) → Str → ℤ → ℤ × Bool
unmarshal_duration unmarshal parse b d = elim (unmarshal b) [
  | none ↦ (d, false)
  | some text ↦ elim (parse text) [ none ↦ (d, false) | some v ↦ (v, true) ]
]

-- `Duration.MarshalJSON`, for the `String` of a duration.
unfoldable pub marshal_duration : (Str → Str) → (ℤ → Str) → ℤ → Str
marshal_duration marshal text d = marshal (text d)

-- What `os.ReadFile` returns.
pub data File : Type 0 where
  missing : File
  unreadable : File
  content : Str → File

pub data LoadError : Type 0 where
  read_failed : LoadError
  bad_json : Str → LoadError
  invalid : ConfigError → LoadError

-- A configuration with the error of its `Validate`.
unfoldable pub validated : Config → Config × Option LoadError
validated cfg = elim (validate cfg) [ ok _ ↦ (cfg, none) | err e ↦ (cfg, some (invalid e)) ]

-- The end of `Load`, after `Decode` with what it left behind and whether its error is nil.
unfoldable pub decoded : Str → Config × Bool → Config × Option LoadError
decoded path (cfg, true) = validated cfg
decoded path (cfg, false) = (cfg, some (bad_json path))

unfoldable pub load_file : (Str → Config → Config × Bool) → Str → File → Config × Option LoadError
load_file decode path missing = validated default_config
load_file decode path unreadable = (default_config, some read_failed)
load_file decode path (content b) = decoded path (decode b default_config)

-- `Load`; `decode` is the strict decoding of a file over a configuration.
unfoldable pub load : (Str → Config → Config × Bool) → Str → File → Config × Option LoadError
load decode path file = if path == [] then validated default_config else load_file decode path file
