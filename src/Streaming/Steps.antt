-- ===== src/Streaming/Steps.antt =====
-- Runs of `IngestQueue`: receivers submit, workers wait, flush group by group and are cancelled, in
-- any order. Between two awaits nothing else runs, so each piece between them is one step.
use siem_lite.Prelude.{
  ℕ, zero, suc, max, ◌≡◌, ◌+◌, Bool, true, false, List, [], ◌∷◌, ◌++◌, Option, none, some, length,
}
use siem_lite.Value.Event.{NormalizedEvent}
use siem_lite.Streaming.Groups.{batch_events, item_events}
use siem_lite.Streaming.{
  IngestItem, Source, Batches, Cause, full, old, stopping, Worker, waiting, flushing, ended,
  IngestQueue, submit, receive, time_out, cancel, flushed, record_group,
}

-- A queue with no item whose workers have just been started.
abbrev pub idle : ℕ → List Worker
idle zero = []
idle (suc n) = waiting [] 0 ∷ idle n

abbrev pub new_queue : ℕ → ℕ → ℕ → IngestQueue
new_queue maxsize flush_max workers = record {
  queue = [];
  maxsize = maxsize;
  flush_max = max flush_max 1;
  workers = idle (max workers 1);
  stats = record { received = 0; dropped = 0; written = 0; flush_errors = 0; events_lost = 0 };
}

-- What happened in a run. `offered` counts the calls of `submit`, `cancelled` the workers that were
-- cancelled inside a flush, the rest count events: those of accepted items, those of groups whose
-- write committed, those of groups that a cancelled flush gave up (the thread that writes the first
-- may still end its work, unseen), and those that were put into a flush a second time.
pub record Ledger : Type 0 where
  pub offered : ℕ
  pub accepted : ℕ
  pub committed : ℕ
  pub abandoned : ℕ
  pub repeated : ℕ
  pub cancelled : ℕ

abbrev pub blank : Ledger
blank = record {
  offered = 0;
  accepted = 0;
  committed = 0;
  abandoned = 0;
  repeated = 0;
  cancelled = 0;
}

abbrev pub note_submit : IngestItem → Bool → Ledger → Ledger
note_submit item true l = record l {
  offered = l.offered + 1;
  accepted = l.accepted + length item.events;
}
note_submit item false l = record l { offered = l.offered + 1 }

abbrev pub note_group : List NormalizedEvent → Option ℕ → Ledger → Ledger
note_group es (some stored) l = record l { committed = l.committed + length es }
note_group es none l = l

abbrev pub note_cancel : Worker → Ledger → Ledger
note_cancel (waiting buf n) l = l
note_cancel (flushing full buf groups) l = record l {
  abandoned = l.abandoned + batch_events groups;
  repeated = l.repeated + item_events buf;
  cancelled = l.cancelled + 1;
}
note_cancel (flushing old buf groups) l = record l {
  abandoned = l.abandoned + batch_events groups;
  cancelled = l.cancelled + 1;
}
note_cancel (flushing stopping buf groups) l = record l {
  abandoned = l.abandoned + batch_events groups;
  cancelled = l.cancelled + 1;
}
note_cancel ended l = l

pub data Run (maxsize flush_max workers : ℕ) : IngestQueue → Ledger → Type 0 where
  started : Run maxsize flush_max workers (new_queue maxsize flush_max workers) blank
  submitted :
      {q : IngestQueue} {l : Ledger} (item : IngestItem)
      → Run maxsize flush_max workers q l
      → Run maxsize flush_max workers (submit item q).1 (note_submit item (submit item q).0 l)
  received :
      {q : IngestQueue} {l : Ledger} (item : IngestItem) (rest : List IngestItem)
      (before after : List Worker) (buf : List IngestItem) (n : ℕ)
      → q.queue ≡ item ∷ rest
      → q.workers ≡ before ++ waiting buf n ∷ after
      → Run maxsize flush_max workers q l
      → Run maxsize flush_max workers
          (record q { queue = rest; workers = before ++ receive q.flush_max item buf n ∷ after })
          l
  timed_out :
      {q : IngestQueue} {l : Ledger} (before after : List Worker) (buf : List IngestItem) (n : ℕ)
      → q.workers ≡ before ++ waiting buf n ∷ after
      → Run maxsize flush_max workers q l
      → Run maxsize flush_max workers (record q { workers = before ++ time_out buf n ∷ after }) l
  wrote_group :
      {q : IngestQueue} {l : Ledger} (before after : List Worker) (cause : Cause)
      (buf : List IngestItem) (source : Source) (es : List NormalizedEvent) (groups : Batches)
      (outcome : Option ℕ)
      → q.workers ≡ before ++ flushing cause buf ((source, es) ∷ groups) ∷ after
      → Run maxsize flush_max workers q l
      → Run maxsize flush_max workers
          (record q {
            workers = before ++ flushing cause buf groups ∷ after;
            stats = record_group es outcome q.stats;
          })
          (note_group es outcome l)
  finished :
      {q : IngestQueue} {l : Ledger} (before after : List Worker) (cause : Cause)
      (buf : List IngestItem)
      → q.workers ≡ before ++ flushing cause buf [] ∷ after
      → Run maxsize flush_max workers q l
      → Run maxsize flush_max workers (record q { workers = before ++ flushed cause ∷ after }) l
  was_cancelled :
      {q : IngestQueue} {l : Ledger} (before after : List Worker) (w : Worker)
      → q.workers ≡ before ++ w ∷ after
      → Run maxsize flush_max workers q l
      → Run maxsize flush_max workers
          (record q { workers = before ++ cancel w ∷ after })
          (note_cancel w l)
