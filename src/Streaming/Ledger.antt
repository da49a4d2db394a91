-- ===== src/Streaming/Ledger.antt =====
-- What the counters of `QueueStats` account for in a run of `IngestQueue`.
use siem_lite.Prelude.{
  ℕ, zero, suc, ◌+◌, max, ◌≡◌, refl, ap, List, [], ◌∷◌, ◌++◌, Option, none, some, arith, inl, inr,
  Bool-cases, length, leb,
}
use siem_lite.Value.Event.{NormalizedEvent}
use siem_lite.Streaming.{
  IngestItem, Cause, full, old, stopping, Worker, waiting, flushing, ended, IngestQueue, is_full,
  submit, receive, time_out, cancel, flushed, record_group,
}
use siem_lite.Streaming.Groups.{
  batch_events, item_events, item_events-append, batch_events-group_items,
}
use siem_lite.Streaming.Steps.{
  idle, Ledger, note_submit, note_group, note_cancel, Run, started, submitted, received, timed_out,
  wrote_group, finished, was_cancelled,
}

-- The events in a worker's hands: its buffer, or the groups that its flush has still to write.
abbrev pub held : Worker → ℕ
held (waiting buf n) = item_events buf
held (flushing cause buf groups) = batch_events groups
held ended = 0

abbrev pub all_held : List Worker → ℕ
all_held [] = 0
all_held (w ∷ ws) = held w + all_held ws

all_held-middle :
    (before : List Worker) (w : Worker) (after : List Worker)
    → all_held (before ++ w ∷ after) ≡ held w + all_held (before ++ after)
all_held-middle [] w after = refl
all_held-middle (v ∷ before) w after = omega (arith, all_held-middle before w after)

all_held-idle : (n : ℕ) → all_held (idle n) ≡ 0
all_held-idle zero = refl
all_held-idle (suc n) = omega (arith, all_held-idle n)

-- The events that were accepted, and where they are or went.
pub record Balanced (q : IngestQueue) (l : Ledger) : Type 0 where
  pub calls : q.stats.received + q.stats.dropped ≡ l.offered
  pub events :
      l.accepted + l.repeated
      ≡ item_events q.queue
        + (all_held q.workers + (l.committed + (q.stats.events_lost + l.abandoned)))
  pub undisturbed : l.cancelled ≡ 0 → (l.abandoned ≡ 0) × (l.repeated ≡ 0)

-- One worker is replaced and all else but what it holds stays.
all_held-swap :
    (ws before : List Worker) (v w : Worker) (after : List Worker)
    → ws ≡ before ++ v ∷ after
    → all_held ws + held w ≡ held v + all_held (before ++ w ∷ after)
all_held-swap ws before v w after e =
    omega (arith, ap all_held e, all_held-middle before v after, all_held-middle before w after)

held-receive :
    (flush_max : ℕ) (item : IngestItem) (buf : List IngestItem) (n : ℕ)
    → held (receive flush_max item buf n) ≡ item_events buf + length item.events
unfolding receive
held-receive flush_max item buf n = elim (Bool-cases (leb flush_max (n + length item.events))) [
  | inl e ↦ rw e (
      omega
        (arith, batch_events-group_items (buf ++ item ∷ []), item_events-append buf (item ∷ [])))
  | inr e ↦ rw e (omega (arith, item_events-append buf (item ∷ [])))
]

held-time_out : (buf : List IngestItem) (n : ℕ) → held (time_out buf n) ≡ item_events buf
unfolding time_out
held-time_out [] n = refl
held-time_out (item ∷ buf) n = batch_events-group_items (item ∷ buf)

Balanced-submit :
    (item : IngestItem) (q : IngestQueue) (l : Ledger)
    → Balanced q l
    → Balanced (submit item q).1 (note_submit item (submit item q).0 l)
unfolding submit
Balanced-submit item q l b = elim (Bool-cases (is_full q)) [
  | inl e ↦
      rw e
        (record { calls = omega (arith, b.calls); events = b.events; undisturbed = b.undisturbed })
  | inr e ↦ rw e (record {
    calls = omega (arith, b.calls);
    events = omega (arith, b.events, item_events-append q.queue (item ∷ []));
    undisturbed = b.undisturbed;
  })
]

Balanced-group :
    (q : IngestQueue) (l : Ledger) (ws : List Worker) (es : List NormalizedEvent)
    (outcome : Option ℕ)
    → all_held q.workers ≡ length es + all_held ws
    → Balanced q l
    → Balanced
        (record q { workers = ws; stats = record_group es outcome q.stats })
        (note_group es outcome l)
unfolding record_group
Balanced-group q l ws [] none h b = record {
  calls = b.calls;
  events = omega (arith, h, b.events);
  undisturbed = b.undisturbed;
}
Balanced-group q l ws [] (some stored) h b = record {
  calls = b.calls;
  events = omega (arith, h, b.events);
  undisturbed = b.undisturbed;
}
Balanced-group q l ws (e ∷ es) none h b = record {
  calls = b.calls;
  events = omega (arith, h, b.events);
  undisturbed = b.undisturbed;
}
Balanced-group q l ws (e ∷ es) (some stored) h b = record {
  calls = b.calls;
  events = omega (arith, h, b.events);
  undisturbed = b.undisturbed;
}

-- A worker is replaced by one that holds as much.
Balanced-swap :
    (q : IngestQueue) (l : Ledger) (ws : List Worker)
    → all_held ws ≡ all_held q.workers
    → Balanced q l
    → Balanced (record q { workers = ws }) l
Balanced-swap q l ws h b = record {
  calls = b.calls;
  events = omega (arith, h, b.events);
  undisturbed = b.undisturbed;
}

Balanced-cancel :
    (q : IngestQueue) (l : Ledger) (w : Worker) (ws : List Worker)
    → all_held q.workers + held (cancel w) ≡ held w + all_held ws
    → Balanced q l
    → Balanced (record q { workers = ws }) (note_cancel w l)
unfolding cancel
Balanced-cancel q l (waiting [] n) ws h b = record {
  calls = b.calls;
  events = omega (arith, h, b.events);
  undisturbed = b.undisturbed;
}
Balanced-cancel q l (waiting (item ∷ buf) n) ws h b = record {
  calls = b.calls;
  events = omega (arith, h, b.events, batch_events-group_items (item ∷ buf));
  undisturbed = b.undisturbed;
}
Balanced-cancel q l (flushing full buf groups) ws h b = record {
  calls = b.calls;
  events = omega (arith, h, b.events, batch_events-group_items buf);
  undisturbed = λ z. absurd (ground arith);
}
Balanced-cancel q l (flushing old buf groups) ws h b = record {
  calls = b.calls;
  events = omega (arith, h, b.events);
  undisturbed = λ z. absurd (ground arith);
}
Balanced-cancel q l (flushing stopping buf groups) ws h b = record {
  calls = b.calls;
  events = omega (arith, h, b.events);
  undisturbed = λ z. absurd (ground arith);
}
Balanced-cancel q l ended ws h b = record {
  calls = b.calls;
  events = omega (arith, h, b.events);
  undisturbed = b.undisturbed;
}

held-flushed : (cause : Cause) → held (flushed cause) ≡ 0
held-flushed full = refl
held-flushed old = refl
held-flushed stopping = refl

module _ {maxsize flush_max workers : ℕ} where
  Run-Balanced : {q : IngestQueue} {l : Ledger} → Run maxsize flush_max workers q l → Balanced q l
  Run-Balanced started = record {
    calls = omega arith;
    events = omega (arith, all_held-idle (max workers 1));
    undisturbed = λ z. (refl, refl);
  }
  Run-Balanced (submitted {q} {l} item r) = Balanced-submit item q l (Run-Balanced r)
  Run-Balanced (received {q} {l} item rest before after buf n eq ew r) =
      let b = Run-Balanced r in
      let w = receive q.flush_max item buf n in
      record {
        calls = b.calls;
        events = omega (
          arith,
          b.events,
          ap item_events eq,
          held-receive q.flush_max item buf n,
          all_held-swap q.workers before (waiting buf n) w after ew,
        );
        undisturbed = b.undisturbed;
      }
  Run-Balanced (timed_out {q} {l} before after buf n ew r) =
      Balanced-swap q l (before ++ time_out buf n ∷ after)
        (omega (
          arith,
          held-time_out buf n,
          all_held-swap q.workers before (waiting buf n) (time_out buf n) after ew,
        ))
        (Run-Balanced r)
  Run-Balanced (wrote_group {q} {l} before after cause buf source es groups outcome ew r) =
      Balanced-group q l (before ++ flushing cause buf groups ∷ after) es outcome
        (omega (
          arith,
          all_held-swap q.workers before (flushing cause buf ((source, es) ∷ groups))
              (flushing cause buf groups) after ew,
        ))
        (Run-Balanced r)
  Run-Balanced (finished {q} {l} before after cause buf ew r) =
      Balanced-swap q l (before ++ flushed cause ∷ after)
        (omega (
          arith,
          held-flushed cause,
          all_held-swap q.workers before (flushing cause buf []) (flushed cause) after ew,
        ))
        (Run-Balanced r)
  Run-Balanced (was_cancelled {q} {l} before after w ew r) =
      Balanced-cancel q l w (before ++ cancel w ∷ after)
        (all_held-swap q.workers before w (cancel w) after ew) (Run-Balanced r)

  -- In every run the calls of `submit` are the received and the dropped ones, and the events of
  -- accepted items, with those put into a flush twice, are in the queue, in a worker's hands,
  -- committed, counted in `events_lost`, or given up by a cancelled flush.
  pub Run-accounted :
      {q : IngestQueue} {l : Ledger}
      → Run maxsize flush_max workers q l
      → (q.stats.received + q.stats.dropped ≡ l.offered)
        × (l.accepted + l.repeated
            ≡ item_events q.queue
              + (all_held q.workers + (l.committed + (q.stats.events_lost + l.abandoned))))
  Run-accounted r = let b = Run-Balanced r in (b.calls, b.events)

  -- While no worker is cancelled inside a flush, every event of an accepted item that is neither in
  -- the queue nor in a worker's hands is committed or counted in `events_lost`: none is lost
  -- silently.
  pub Run-lossless :
      {q : IngestQueue} {l : Ledger}
      → Run maxsize flush_max workers q l
      → l.cancelled ≡ 0
      → l.accepted
        ≡ item_events q.queue + (all_held q.workers + (l.committed + q.stats.events_lost))
  Run-lossless r h =
      let b = Run-Balanced r in let (x, y) = b.undisturbed h in omega (arith, b.events, x, y)
