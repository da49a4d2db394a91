-- ===== src/Streaming/Tests.antt =====
-- Tests of the ingest queue.
use siem_lite.Prelude.{◌+◌, ◌≡◌, refl, [], ◌∷◌, none, some}
use siem_lite.Text.Chars.{codes, text_eq}
use siem_lite.Streaming.{
  IngestItem, Source, old, flushing, ended, IngestQueue, submit, receive, time_out, cancel,
  record_group, group_items,
}
use siem_lite.Streaming.Groups.{item_events, AreDistinct, gathered, events_of, group_items-gathered}
use siem_lite.Streaming.Steps.{
  new_queue, Ledger, blank, Run, started, submitted, received, timed_out, wrote_group,
  was_cancelled,
}
use siem_lite.Streaming.Ledger.{all_held, Run-accounted, Run-lossless}
use siem_lite.Streaming.Bounds.{IsBounded, Run-IsBounded}
use siem_lite.Samples.{failed_logon}

abbrev syslog_item : IngestItem
syslog_item = record {
  events = failed_logon ∷ [];
  fmt = codes "cef";
  source_type = codes "syslog";
  source_addr = some (codes "10.0.0.1");
  vendor = none;
}

-- One item is taken and its buffer grows old; the first item after it stays in the queue.
abbrev offered_queue : IngestQueue
offered_queue = (submit syslog_item (new_queue 2 5 1)).1

abbrev old_queue : IngestQueue
old_queue = record offered_queue {
  queue = [];
  workers = flushing old (syslog_item ∷ []) (group_items (syslog_item ∷ [])) ∷ [];
}

abbrev one_accepted : Ledger
one_accepted = record blank { offered = 1; accepted = 1 }

flushes_old : Run 2 5 1 old_queue one_accepted
unfolding submit receive time_out
flushes_old =
    timed_out [] [] (syslog_item ∷ []) 1 refl
      (received syslog_item [] [] [] [] 0 refl refl (submitted syslog_item started))

-- The write fails, and the worker is told to stop before its flush goes on.
abbrev failed_queue : IngestQueue
failed_queue = record old_queue {
  workers = flushing old (syslog_item ∷ []) [] ∷ [];
  stats = record { received = 1; dropped = 0; written = 0; flush_errors = 1; events_lost = 1 };
}

fails_write : Run 2 5 1 failed_queue one_accepted
unfolding submit group_items record_group text_eq
fails_write =
    wrote_group [] [] old (syslog_item ∷ []) _ (failed_logon ∷ []) [] none refl flushes_old

-- The worker is told to stop inside the flush of an old buffer, before its one group is written.
abbrev stopped_queue : IngestQueue
stopped_queue = record old_queue { workers = ended ∷ [] }

abbrev one_abandoned : Ledger
one_abandoned = record one_accepted { abandoned = 1; cancelled = 1 }

abandons : Run 2 5 1 stopped_queue one_abandoned
unfolding cancel group_items text_eq
abandons =
    was_cancelled [] [] (flushing old (syslog_item ∷ []) (group_items (syslog_item ∷ []))) refl
      flushes_old

abandoned_silently : (stopped_queue.stats.events_lost ≡ 0) × (item_events stopped_queue.queue ≡ 0)
unfolding submit
abandoned_silently = (refl, refl)

Run-accounted_example :
    (stopped_queue.stats.received + stopped_queue.stats.dropped ≡ one_abandoned.offered)
    × (one_abandoned.accepted + one_abandoned.repeated
        ≡ item_events stopped_queue.queue
          + (all_held stopped_queue.workers
              + (one_abandoned.committed
                  + (stopped_queue.stats.events_lost + one_abandoned.abandoned))))
Run-accounted_example = Run-accounted abandons

Run-lossless_example :
    one_accepted.accepted
    ≡ item_events failed_queue.queue
      + (all_held failed_queue.workers + (one_accepted.committed + failed_queue.stats.events_lost))
Run-lossless_example = Run-lossless fails_write refl

Run-IsBounded_example : IsBounded failed_queue
Run-IsBounded_example = Run-IsBounded fails_write

group_items-gathered_example :
    AreDistinct (group_items (syslog_item ∷ syslog_item ∷ []))
    × ((k : Source)
        → gathered k (group_items (syslog_item ∷ syslog_item ∷ []))
          ≡ events_of k (syslog_item ∷ syslog_item ∷ []))
group_items-gathered_example = group_items-gathered (syslog_item ∷ syslog_item ∷ [])
