-- ===== src/Event.antt =====
-- internal/event/event.go: the routing key, the event and the decoding of a frame's envelope.
-- `encoding/json` is the argument `unmarshal`: `none` is an error, and a field that the frame
-- leaves out has Go's zero value.
pub mod Decode
pub mod DedupKey
use jetstream_router.Common.{
  ◌≡◌, Bool, ◌&&◌, ◌||◌, not, Option, none, some, List, [], ◌++◌, Result, ok, err, if◌then◌else◌,
}
use jetstream_router.Common.Int.{ℤ, pos}
use jetstream_router.Common.Str.{Str, lit, ◌==◌}

abbrev pub kind_commit : Str
kind_commit = lit "commit"

abbrev pub op_delete : Str
op_delete = lit "delete"

pub record Key : Type 0 where
  pub kind : Str
  pub collection : Str
  pub operation : Str

pub record Event : Type 0 where
  pub key : Key
  pub did : Str
  pub time_us : ℤ
  pub rkey : Str
  pub body : Str

unfoldable pub dedup_key : Event → Str
dedup_key e =
    e.did
    ++ (lit "|" ++ (e.key.collection ++ (lit "|" ++ (e.rkey ++ (lit "|" ++ e.key.operation)))))

pub record Commit : Type 0 where
  pub operation : Str
  pub collection : Str
  pub rkey : Str
  pub body : Str

pub record Envelope : Type 0 where
  pub did : Str
  pub time_us : ℤ
  pub kind : Str
  pub commit : Option Commit

pub data DecodeError : Type 0 where
  malformed : DecodeError

-- The event of a frame whose kind is set, before the commit block is looked at.
unfoldable pub base_event : Envelope → Event
base_event env = record {
  key = record { kind = env.kind; collection = []; operation = [] };
  did = env.did;
  time_us = env.time_us;
  rkey = [];
  body = [];
}

-- The event with the commit block's fields filled in.
unfoldable pub commit_event : Envelope → Commit → Event
unfolding base_event
commit_event env c = record (base_event env) {
  key = record { kind = env.kind; collection = c.collection; operation = c.operation };
  rkey = c.rkey;
  body = c.body;
}

unfoldable pub with_commit : Envelope → Option Commit → Result DecodeError Event
unfolding commit_event
with_commit env none = err malformed
with_commit env (some c) =
    if c.collection == [] || c.operation == [] then err malformed else ok (commit_event env c)

unfoldable pub from_envelope : Option Envelope → Result DecodeError Event
unfolding with_commit base_event
from_envelope none = err malformed
from_envelope (some env) =
    if env.kind == []
    then err malformed
    else (if not (env.kind == kind_commit) then ok (base_event env) else with_commit env env.commit)

unfoldable pub decode : (Str → Option Envelope) → Str → Result DecodeError Event
unfolding from_envelope
decode unmarshal frame = from_envelope (unmarshal frame)
