-- ===== src/Handler/Alerts.antt =====
-- internal/handler/handler.go: what a handler sends to its sink, and the decoding of a record's
-- body. `unmarshal` is `encoding/json`: `none` is an error.
use jetstream_router.Common.{ℕ, ◌+◌, Bool, Option, none, List, [], ◌∷◌, if◌then◌else◌, ◌/◌}
use jetstream_router.Common.Int.{ℤ, pos, negsuc, sub_ℕ}
use jetstream_router.Common.Str.{Str, lit, ◌==◌}

pub data Attr : Type 0 where
  text : Str → Attr
  number : ℤ → Attr
  texts : List Str → Attr

-- The arguments of `Sink.Alert`.
pub record Alert : Type 0 where
  pub level : Str
  pub route : Str
  pub msg : Str
  pub attrs : List (Str × Attr)

-- `decode`
unfoldable pub decode {ℓ} : {A : Type ℓ} → (Str → Option A) → Str → Option A
decode unmarshal raw = if raw == [] then none else unmarshal raw

-- `lower`, for Go's `strings.ToLower`.
unfoldable pub lower : (Str → Str) → List Str → List Str
lower to_lower [] = []
lower to_lower (s ∷ ss) = to_lower s ∷ lower to_lower ss

-- Go's integer division by a positive number, which rounds towards zero.
abbrev pub quot : ℤ → ℕ → ℤ
quot (pos a) b = pos (a / b)
quot (negsuc a) b = sub_ℕ 0 ((1 + a) / b)

-- A line that `LogSink` writes; `warning` tells `Warn` from `Info`.
pub record Line : Type 0 where
  pub warning : Bool
  pub msg : Str
  pub args : List (Str × Attr)

-- `LogSink`, with the labels of the increments of `obs.Alerts` and the lines, the last first.
pub record LogSink : Type 0 where
  pub alerts : List (Str × Str)
  pub lines : List Line

abbrev pub new_sink : LogSink
new_sink = record { alerts = []; lines = [] }

-- `LogSink.Alert`
unfoldable pub alert : Alert → LogSink → LogSink
alert a s = record {
  alerts = (a.route, a.msg) ∷ s.alerts;
  lines =
      record {
        warning = a.level == lit "warn";
        msg = a.msg;
        args = (lit "route", text a.route) ∷ a.attrs;
      }
      ∷ s.lines;
}

unfoldable pub alert_all : List Alert → LogSink → LogSink
alert_all [] s = s
alert_all (a ∷ rest) s = alert_all rest (alert a s)
