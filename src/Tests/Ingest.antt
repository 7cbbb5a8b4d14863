-- ===== src/Tests/Ingest.antt =====
-- The connection on concrete frames and positions.
use jetstream_router.Common.{
  length, take, ◌↔◌, suc, ◌+◌, ◌≤◌, ◌≡◌, ◌⊎◌, refl, true, Option, some, [], ◌++◌, false, ◌∷◌, All,
  arith,
}
use jetstream_router.Common.Int.{ℤ, pos, negsuc, ◌≤ℤ◌, ◌-ℤ◌, ◌*ℤ◌}
use jetstream_router.Common.Str.{Str, lit, ◌==◌}
use jetstream_router.Cursor.{lag}
use jetstream_router.Route.{sent, send}
use jetstream_router.Obs.{set_ready, new_health}
use jetstream_router.Routing.{route, first_match}
use jetstream_router.Ingest.{
  Config, Ingestor, new, set_state, unix_micro, resume_at, lapsed, subscribe, catch_up, dispatched,
  handle_frame, read_frame, judge_lag, publish, refresh_lag, disconnect, establish, announce,
  hang_up, set_gauges, same_state, count_attempt, longest_delay, delay,
}
use jetstream_router.Ingest.Resume.{IsFloor, rewound, IsLapsed}
use jetstream_router.PathMatch.Rune.{decode_rune}
use jetstream_router.Ingest.ErrorText.{
  close_error, other, valid_runes, to_valid_utf8, err_string, IsUtf8, err_string_lem,
}
use jetstream_router.Ingest.Request.{
  Values, values, wanted_key, cursor_key, subscribe_url, subscribe_url_lem,
}
use jetstream_router.Ingest.Frames.{CatchesUp, Reads, start, next, IsPassed, Reads-IsPassed}
use jetstream_router.Tests.Routing.{routing, parse, event}
use jetstream_router.Tests.Answers.{program}
use jetstream_router.Tests.Delivery.{plain, first_route}

unfoldable pub ingest : Unit {0}
unfolding routing program new set_state unix_micro resume_at lapsed subscribe establish announce
    catch_up dispatched handle_frame read_frame judge_lag publish refresh_lag hang_up disconnect
    set_ready new_health set_gauges same_state count_attempt longest_delay delay lag ◌-ℤ◌ ◌*ℤ◌ route
    first_match
ingest = tt

abbrev pub config : Config
config = record {
  url = lit "wss://host/subscribe";
  wanted_collections = [];
  max_frame_bytes = pos 1048576;
  commit_every = pos 1000000000;
  replay_rewind = pos 2500;
  live_threshold = pos 3000;
  max_lag = pos 60000;
  replay_window = pos 0;
  idle_timeout = pos 0;
  backoff_max = pos 30000000000;
}

abbrev ingestor : Ingestor
ingestor = new config (record { latest = pos 10; committed = pos 10 }) new_health

abbrev pub no_time : ℤ → ℤ
no_time t = pos 0

abbrev pub print : Str → ℤ → Str
print format seconds = format

-- Two and a half microseconds before the tenth is in the seventh.
subscribe_tests : subscribe no_time ingestor ≡ (ingestor, some (pos 7))
unfolding ingest
subscribe_tests = refl

-- A URL is its own text, with a query that is empty at first and shows the position only.
abbrev parse_url : Str → Option (Values × (Values → Str))
parse_url u = some ([], λ q. elim (values cursor_key q) [ [] ↦ u | v ∷ _ ↦ u ++ v ])

-- A position that is not negative is one byte.
abbrev format : ℤ → Str
format (pos n) = n ∷ []
format (negsuc n) = []

subscribe_url_lem_example :
    (q' : Values) × (g' : Ingestor) × (subscribe_url parse_url format no_time ingestor ≡ (
      g',
      some (elim (values cursor_key q') [
        | [] ↦ lit "wss://host/subscribe"
        | v ∷ _ ↦ lit "wss://host/subscribe" ++ v
      ]),
    ))
    × (values wanted_key q' ≡ values wanted_key [] ++ [])
    × ((key : Str)
        → (wanted_key == key) ≡ false
        → (cursor_key == key) ≡ false
        → values key q' ≡ values key [])
    × (((c : ℤ) × (values cursor_key q' ≡ format c ∷ [])
          × (g' ≡ ingestor)
          × (pos 1 ≤ℤ ingestor.cursor.latest)
          × ¬ IsLapsed no_time ingestor
          × IsFloor c (rewound ingestor)
          × (c ≤ℤ ingestor.cursor.latest))
        ⊎ ((values cursor_key q' ≡ values cursor_key [])
            × (((g' ≡ record ingestor { gaps = suc ingestor.gaps })
                  × (pos 1 ≤ℤ ingestor.cursor.latest)
                  × IsLapsed no_time ingestor)
                ⊎ ((g' ≡ ingestor) × (ingestor.cursor.latest ≤ℤ pos 0)))))
unfolding new
subscribe_url_lem_example =
    subscribe_url_lem parse_url format no_time ingestor []
      (λ q. elim (values cursor_key q) [
        | [] ↦ lit "wss://host/subscribe"
        | v ∷ _ ↦ lit "wss://host/subscribe" ++ v
      ])
      (unfold ingest in refl) (unfold ingest in omega arith)

abbrev fresh : Ingestor
fresh = announce (establish (new config (record { latest = pos 0; committed = pos 0 }) new_health))

abbrev after_frame : Ingestor
after_frame = record fresh { received = 1; cursor = record { latest = pos 7; committed = pos 0 } }

-- The frame's event goes to the fallback route, and the cursor to its position.
one_frame :
    Reads parse no_time fresh plain
      ((1 ∷ 2 ∷ []) ∷ [])
      1
      after_frame
      (record plain { routes = (lit "default", send event first_route) ∷ [] })
unfolding ingest
one_frame = next sent (1 ∷ 2 ∷ []) start refl

-- A verdict on the lag that was reached before a disconnect, and is written after it, leaves the
-- process ready without a connection.
ready_tests :
    ((refresh_lag print no_time (disconnect (hang_up after_frame))).health.ready ≡ false)
    × ((publish
          (judge_lag print no_time after_frame)
          (disconnect (hang_up after_frame))).health.ready
        ≡ true)
    × ((publish (judge_lag print no_time after_frame) (disconnect (hang_up after_frame))).connected
        ≡ false)
unfolding ingest
ready_tests = (refl, refl, refl)

Reads-IsPassed_example :
    (after_frame.received ≡ fresh.received + 1)
    × (fresh.cursor.latest ≤ℤ after_frame.cursor.latest)
    × All (IsPassed parse no_time after_frame.cursor) ((1 ∷ 2 ∷ []) ∷ [])
    × (fresh.malformed ≤ after_frame.malformed)
    × (after_frame.malformed ≤ fresh.malformed + 1)
    × CatchesUp fresh.state after_frame.state
Reads-IsPassed_example =
    Reads-IsPassed parse no_time fresh plain ((1 ∷ 2 ∷ []) ∷ []) 1 after_frame
      (record plain { routes = (lit "default", send event first_route) ∷ [] }) one_frame

-- A letter, a byte of no character, and a letter of two bytes.
abbrev upstream : Str
upstream = 97 ∷ 255 ∷ 195 ∷ 169 ∷ []

err_string_tests :
    (err_string format (some (other upstream)) ≡ 97 ∷ 195 ∷ 169 ∷ [])
    × (err_string format (some (close_error (pos 5))) ≡ lit "websocket close " ++ 5 ∷ [])
unfolding err_string to_valid_utf8 valid_runes decode_rune take
err_string_tests = (refl, refl)

err_string_lem_example :
    (length (err_string format (some (other upstream))) ≤ 200)
    × IsUtf8 (err_string format (some (other upstream)))
    × ((err_string format (some (other upstream)) ≡ upstream)
        ↔ ((length upstream ≤ 200) × IsUtf8 upstream))
err_string_lem_example = err_string_lem format upstream
