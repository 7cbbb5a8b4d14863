-- ===== src/Event/Decode.antt =====
-- What `Decode` lets through.
use jetstream_router.Common.{
  ◌≡◌, refl, ◌≢◌, ◌⊎◌, inl, inr, ◌↔◌, Option, none, some, [], ok, err, arith, Option-cases,
  Bool-cases, Result,
}
use jetstream_router.Common.Str.{Str, ◌==◌, eq_iff}
use jetstream_router.Event.{
  kind_commit, Event, Commit, Envelope, malformed, from_envelope, decode, base_event, commit_event,
  DecodeError,
}

-- The events that an envelope stands for, field by field, from the documentation of `Decode`.
abbrev pub Denotes : Envelope → Event → Type 0
Denotes env e =
    ((env.kind ≢ [])
      × (env.kind ≢ kind_commit)
      × (e ≡ record {
        key = record { kind = env.kind; collection = []; operation = [] };
        did = env.did;
        time_us = env.time_us;
        rkey = [];
        body = [];
      }))
    ⊎ ((c : Commit) × (env.kind ≡ kind_commit)
        × (env.commit ≡ some c)
        × (c.collection ≢ [])
        × (c.operation ≢ [])
        × (e ≡ record {
          key = record { kind = env.kind; collection = c.collection; operation = c.operation };
          did = env.did;
          time_us = env.time_us;
          rkey = c.rkey;
          body = c.body;
        }))

from_envelope-Denotes :
    (env : Envelope) (e : Event) → from_envelope (some env) ≡ ok e → Denotes env e
unfolding from_envelope commit_event base_event
from_envelope-Denotes env e h = elim (Option-cases env.commit) [
  | inl missing ↦ inl (ground (arith, eq_iff env.kind [], eq_iff env.kind kind_commit))
  | inr (c, found) ↦ elim (Bool-cases (env.kind == kind_commit)) [
    | inl same ↦ inr (
      c,
      (eq_iff _ _).0 same,
      found,
      ground (arith, eq_iff c.collection []),
      ground (arith, eq_iff c.operation []),
      ground arith,
    )
    | inr other ↦ inl (ground (arith, eq_iff env.kind [], eq_iff env.kind kind_commit))
  ]
]

Denotes-from_envelope :
    (env : Envelope) (e : Event) → Denotes env e → from_envelope (some env) ≡ ok e
unfolding from_envelope commit_event base_event
Denotes-from_envelope env e (inl h) =
    ground (arith, eq_iff env.kind [], eq_iff env.kind kind_commit)
Denotes-from_envelope env e (inr h) = ground (
  arith,
  eq_iff env.kind [],
  eq_iff env.kind kind_commit,
  eq_iff (h.0).collection [],
  eq_iff (h.0).operation [],
)

from_envelope-parsed :
    (o : Option Envelope) (e : Event)
    → from_envelope o ≡ ok e
    → (env : Envelope) × (o ≡ some env) × Denotes env e
unfolding from_envelope
from_envelope-parsed none e h = cc
from_envelope-parsed (some env) e h = (env, refl, from_envelope-Denotes env e h)

-- Decode returns an event exactly when the frame parses to an envelope of a non-empty kind that
-- is not "commit", and then the event has no collection, operation, rkey or record, or to a
-- commit whose block has a collection and an operation, and then the event has the fields of the
-- block; in every other case it returns ErrMalformed.
pub decode_iff :
    (unmarshal : Str → Option Envelope) (frame : Str)
    → ((e : Event)
        → (decode unmarshal frame ≡ ok e)
          ↔ ((env : Envelope) × (unmarshal frame ≡ some env) × Denotes env e))
      × ((¬ ((e : Event) × (decode unmarshal frame ≡ ok e)))
          ↔ (decode unmarshal frame ≡ err malformed))
unfolding decode
decode_iff unmarshal frame = (
  λ e. (
    λ h. from_envelope-parsed (unmarshal frame) e h,
    λ (env, parsed, d). rw parsed (Denotes-from_envelope env e d),
  ),
  (λ h. rejected (from_envelope (unmarshal frame)) h, λ h (e, k). cc),
)
  where
    rejected : (r : Result DecodeError Event) → ¬ ((e : Event) × (r ≡ ok e)) → r ≡ err malformed
    rejected (ok e) h = absurd (h (e, refl))
    rejected (err malformed) h = refl
