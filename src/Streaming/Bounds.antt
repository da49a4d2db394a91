-- ===== src/Streaming/Bounds.antt =====
-- The bounds of `IngestQueue`: its queue, and the buffers of its workers.
use siem_lite.Prelude.{
  ℕ, zero, suc, ◌+◌, ◌≤◌, ◌<◌, max, ◌≡◌, refl, ap, subst, List, [], ◌∷◌, ◌++◌, arith, inl, inr,
  Bool-cases, length, length-append, All, leb,
}
use siem_lite.Streaming.{
  IngestItem, Cause, full, old, stopping, Worker, waiting, flushing, ended, IngestQueue, is_full,
  submit, receive, time_out, cancel, flushed,
}
use siem_lite.Streaming.Groups.{item_events, item_events-append}
use siem_lite.Streaming.Steps.{
  idle, Ledger, Run, started, submitted, received, timed_out, wrote_group, finished, was_cancelled,
}

-- A waiting worker counts its buffer right, and the buffer is below the flush size.
abbrev pub IsBelow : ℕ → Worker → Type 0
IsBelow m (waiting buf n) = (n ≡ item_events buf) × (n < m)
IsBelow m (flushing cause buf groups) = Unit {0}
IsBelow m ended = Unit {0}

pub record IsBounded (q : IngestQueue) : Type 0 where
  pub queue_bounded : 0 < q.maxsize → length q.queue ≤ q.maxsize
  pub flushes : 0 < q.flush_max
  pub buffers_bounded : All (IsBelow q.flush_max) q.workers

All-idle : (m n : ℕ) → 0 < m → All (IsBelow m) (idle n)
All-idle m zero h = tt
All-idle m (suc n) h = ((refl, h), All-idle m n h)

All-swap :
    (m : ℕ) (before : List Worker) (v w : Worker) (after : List Worker)
    → (IsBelow m v → IsBelow m w)
    → All (IsBelow m) (before ++ v ∷ after)
    → All (IsBelow m) (before ++ w ∷ after)
All-swap m [] v w after f h = (f h.0, h.1)
All-swap m (u ∷ before) v w after f h = (h.0, All-swap m before v w after f h.1)

IsBelow-receive :
    (m : ℕ) (item : IngestItem) (buf : List IngestItem) (n : ℕ)
    → IsBelow m (waiting buf n)
    → IsBelow m (receive m item buf n)
unfolding receive
IsBelow-receive m item buf n h = elim (Bool-cases (leb m (n + length item.events))) [
  | inl e ↦ rw e tt
  | inr e ↦ rw e (omega (arith, h.0, item_events-append buf (item ∷ [])), ground arith)
]

IsBelow-time_out :
    (m : ℕ) (buf : List IngestItem) (n : ℕ) → IsBelow m (waiting buf n) → IsBelow m (time_out buf n)
unfolding time_out
IsBelow-time_out m [] n h = h
IsBelow-time_out m (item ∷ buf) n h = tt

IsBelow-cancel : (m : ℕ) (w : Worker) → IsBelow m w → IsBelow m (cancel w)
unfolding cancel
IsBelow-cancel m (waiting [] n) h = tt
IsBelow-cancel m (waiting (item ∷ buf) n) h = tt
IsBelow-cancel m (flushing full buf groups) h = tt
IsBelow-cancel m (flushing old buf groups) h = tt
IsBelow-cancel m (flushing stopping buf groups) h = tt
IsBelow-cancel m ended h = tt

IsBelow-flushed : (m : ℕ) (cause : Cause) → 0 < m → IsBelow m (flushed cause)
IsBelow-flushed m full h = (refl, h)
IsBelow-flushed m old h = (refl, h)
IsBelow-flushed m stopping h = tt

IsBounded-submit : (item : IngestItem) (q : IngestQueue) → IsBounded q → IsBounded (submit item q).1
unfolding submit
IsBounded-submit item q b = elim (Bool-cases (is_full q)) [
  | inl e ↦ rw e (record {
    queue_bounded = b.queue_bounded;
    flushes = b.flushes;
    buffers_bounded = b.buffers_bounded;
  })
  | inr e ↦ rw e (record {
    queue_bounded = λ z. ground (arith, length-append q.queue (item ∷ []), b.queue_bounded z);
    flushes = b.flushes;
    buffers_bounded = b.buffers_bounded;
  })
]

-- One worker is replaced, and the queue does not grow.
IsBounded-swap :
    (q q' : IngestQueue) (before : List Worker) (v w : Worker) (after : List Worker)
    → q.workers ≡ before ++ v ∷ after
    → q'.workers ≡ before ++ w ∷ after
    → q'.maxsize ≡ q.maxsize
    → q'.flush_max ≡ q.flush_max
    → length q'.queue ≤ length q.queue
    → (IsBelow q.flush_max v → IsBelow q.flush_max w)
    → IsBounded q
    → IsBounded q'
IsBounded-swap q q' before v w after ew ew' em ef el f b = record {
  queue_bounded = λ z. let k = b.queue_bounded (omega (arith, em)) in omega (arith, em, el, k);
  flushes = omega (arith, ef, b.flushes);
  buffers_bounded =
      rw (ew', ef)
        (All-swap q.flush_max before v w after f
          (subst (All (IsBelow q.flush_max)) ew b.buffers_bounded));
}

module _ {maxsize flush_max workers : ℕ} where
  -- In every run the queue stays within its size, if it has one, and a waiting worker's buffer,
  -- whose events it counts, stays below the flush size.
  pub Run-IsBounded :
      {q : IngestQueue} {l : Ledger} → Run maxsize flush_max workers q l → IsBounded q
  Run-IsBounded started = record {
    queue_bounded = λ z. omega arith;
    flushes = omega arith;
    buffers_bounded = All-idle (max flush_max 1) (max workers 1) (omega arith);
  }
  Run-IsBounded (submitted {q} item r) = IsBounded-submit item q (Run-IsBounded r)
  Run-IsBounded (received {q} item rest before after buf n eq ew r) =
      IsBounded-swap q _ before (waiting buf n) (receive q.flush_max item buf n) after ew refl refl
        refl (omega (arith, ap length eq)) (IsBelow-receive q.flush_max item buf n)
        (Run-IsBounded r)
  Run-IsBounded (timed_out {q} before after buf n ew r) =
      IsBounded-swap q _ before (waiting buf n) (time_out buf n) after ew refl refl refl
        (omega arith) (IsBelow-time_out q.flush_max buf n) (Run-IsBounded r)
  Run-IsBounded (wrote_group {q} before after cause buf source es groups outcome ew r) =
      IsBounded-swap q _ before (flushing cause buf ((source, es) ∷ groups))
        (flushing cause buf groups) after ew refl refl refl (omega arith) (λ h. tt)
        (Run-IsBounded r)
  Run-IsBounded (finished {q} before after cause buf ew r) =
      let b = Run-IsBounded r in
      IsBounded-swap q _ before (flushing cause buf []) (flushed cause) after ew refl refl refl
        (omega arith) (λ h. IsBelow-flushed q.flush_max cause b.flushes) b
  Run-IsBounded (was_cancelled {q} before after w ew r) =
      IsBounded-swap q _ before w (cancel w) after ew refl refl refl (omega arith)
        (IsBelow-cancel q.flush_max w) (Run-IsBounded r)
