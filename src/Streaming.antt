-- ===== src/Streaming.antt =====
-- `app/streaming.py`: the bounded queue between the live receivers and the database, and its
-- workers. `_write_group` enters as its outcome: the rows stored, or `none` where it raises.
pub mod Groups
pub mod Steps
pub mod Ledger
pub mod Bounds
mod Tests
use siem_lite.Prelude.{
  ℕ, zero, suc, ◌+◌, Bool, true, false, ◌&&◌, List, [], ◌∷◌, ◌++◌, Option, none, some,
  if◌then◌else◌, ltb, leb, length, is_empty,
}
use siem_lite.Text.Chars.{Text, text_eq}
use siem_lite.Value.Event.{NormalizedEvent}

pub record IngestItem : Type 0 where
  pub events : List NormalizedEvent
  pub fmt : Text
  pub source_type : Text
  pub source_addr : Option Text
  pub vendor : Option Text

pub record QueueStats : Type 0 where
  pub received : ℕ
  pub dropped : ℕ
  pub written : ℕ
  pub flush_errors : ℕ
  pub events_lost : ℕ

-- `(item.fmt, item.source_type, item.source_addr, item.vendor)`
pub record Source : Type 0 where
  pub fmt : Text
  pub source_type : Text
  pub source_addr : Option Text
  pub vendor : Option Text

abbrev pub maybe_eq : Option Text → Option Text → Bool
maybe_eq none none = true
maybe_eq (some s) (some t) = text_eq s t
maybe_eq _ _ = false

abbrev pub source_eq : Source → Source → Bool
source_eq a b =
    text_eq a.fmt b.fmt
    && text_eq a.source_type b.source_type
    && maybe_eq a.source_addr b.source_addr
    && maybe_eq a.vendor b.vendor

abbrev pub source_of : IngestItem → Source
source_of item = record {
  fmt = item.fmt;
  source_type = item.source_type;
  source_addr = item.source_addr;
  vendor = item.vendor;
}

abbrev pub Batches : Type 0
Batches = List (Source × List NormalizedEvent)

-- `groups[key].extend(item.events)`, where a missing key is an empty list
unfoldable pub extend : Source → List NormalizedEvent → Batches → Batches
unfolding text_eq
extend k es [] = (k, es) ∷ []
extend k es ((j, old) ∷ groups) =
    if source_eq j k then (j, old ++ es) ∷ groups else (j, old) ∷ extend k es groups

unfoldable pub group_into : Batches → List IngestItem → Batches
unfolding extend
group_into groups [] = groups
group_into groups (item ∷ items) = group_into (extend (source_of item) item.events groups) items

unfoldable pub group_items : List IngestItem → Batches
unfolding group_into
group_items items = group_into [] items

-- What a flush is for: the buffer is full, it is old, or the worker is told to stop.
pub data Cause : Type 0 where
  full : Cause
  old : Cause
  stopping : Cause

-- A worker waiting for an item with its buffer and the buffer's count, one inside `_flush` with
-- the groups still to write, and one that has ended.
pub data Worker : Type 0 where
  waiting : List IngestItem → ℕ → Worker
  flushing : Cause → List IngestItem → Batches → Worker
  ended : Worker

pub record IngestQueue : Type 0 where
  pub queue : List IngestItem
  pub maxsize : ℕ
  pub flush_max : ℕ
  pub workers : List Worker
  pub stats : QueueStats

-- `put_nowait` of an `asyncio.Queue`, which has no bound if `maxsize` is 0
abbrev pub is_full : IngestQueue → Bool
is_full q = ltb 0 q.maxsize && leb q.maxsize (length q.queue)

unfoldable pub submit : IngestItem → IngestQueue → Bool × IngestQueue
submit item q =
    if is_full q
    then (false, record q { stats = record q.stats { dropped = q.stats.dropped + 1 } })
    else (
      true,
      record q {
        queue = q.queue ++ item ∷ [];
        stats = record q.stats { received = q.stats.received + 1 };
      },
    )

-- The body of the loop of `_worker` once an item has come.
unfoldable pub receive : ℕ → IngestItem → List IngestItem → ℕ → Worker
unfolding group_items
receive flush_max item buf n =
    let buf' = buf ++ item ∷ [] in
    let n' = n + length item.events in
    if leb flush_max n' then flushing full buf' (group_items buf') else waiting buf' n'

-- `asyncio.TimeoutError`
unfoldable pub time_out : List IngestItem → ℕ → Worker
unfolding group_items
time_out buf n = if is_empty buf then waiting buf n else flushing old buf (group_items buf)

-- `asyncio.CancelledError`. Inside the flush of a full buffer it reaches the handler that flushes
-- the buffer again; inside a handler's own flush no handler is left.
unfoldable pub cancel : Worker → Worker
unfolding group_items
cancel (waiting buf n) = if is_empty buf then ended else flushing stopping buf (group_items buf)
cancel (flushing full buf groups) = flushing stopping buf (group_items buf)
cancel (flushing old buf groups) = ended
cancel (flushing stopping buf groups) = ended
cancel ended = ended

-- The end of `_flush`.
abbrev pub flushed : Cause → Worker
flushed full = waiting [] 0
flushed old = waiting [] 0
flushed stopping = ended

-- The body of the loop of `_flush` for one group.
unfoldable pub record_group : List NormalizedEvent → Option ℕ → QueueStats → QueueStats
record_group [] outcome stats = stats
record_group (e ∷ es) (some stored) stats = record stats { written = stats.written + stored }
record_group (e ∷ es) none stats = record stats {
  flush_errors = stats.flush_errors + 1;
  events_lost = stats.events_lost + length (e ∷ es);
}
