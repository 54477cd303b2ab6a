-- ===== src/Monitoring/Progress.antt =====
-- `SyncProgress`: what a synchronization publishes of its progress. A failed write of the payload is
-- swallowed, so a call is one step on the counters, and its result is the payload.
use invoice_hub.Prelude.Text.{or_else}
use invoice_hub.Prelude.Int.{negsuc, pos, ℤ}
use invoice_hub.Prelude.{
  List, Option, String, [], arith, if◌then◌else◌, max, min, none, some, ℕ, ◌==◌, ◌∷◌, ◌≡◌, ◌≤◌, ◌⊎◌,
}

pub data Status : Type 0 where
  running success failed : Status

pub record SyncProgress : Type 0 where
  pub operation_id : String
  pub task_id : String
  pub target_id : String
  pub trigger : String
  pub started_at : String
  pub percent : ℕ
  pub processed_count : ℕ
  pub total_count : ℕ

-- The payload: `finished_at` is `none` while the operation runs.
pub record ProgressPayload : Type 0 where
  pub operation_id : String
  pub task_id : String
  pub target_id : String
  pub trigger : String
  pub status : Status
  pub phase : String
  pub message : String
  pub percent : ℕ
  pub processed_count : ℕ
  pub total_count : ℕ
  pub started_at : String
  pub updated_at : String
  pub error : String
  pub finished_at : Option String

-- `SyncProgress.__init__`
unfoldable pub new_progress : String → String → String → String → String → SyncProgress
new_progress operation_id task_id target_id trigger now = record {
  operation_id = operation_id;
  task_id = task_id;
  target_id = target_id;
  trigger = or_else trigger "sync";
  started_at = now;
  percent = 0;
  processed_count = 0;
  total_count = 0;
}

-- `_count`
abbrev pub count : ℤ → ℕ
count (pos n) = n
count (negsuc n) = 0

-- The keyword arguments of `_publish`.
pub record Publication : Type 0 where
  pub status : Status
  pub phase : String
  pub message : String
  pub percent : ℤ
  pub processed_count : Option ℤ
  pub total_count : Option ℤ
  pub error : String

-- `n` where nothing is given
abbrev pub counted_or : Option ℤ → ℕ → ℕ
counted_or none n = n
counted_or (some z) n = count z

-- The counters after `_publish`.
unfoldable pub advance : Publication → SyncProgress → SyncProgress
advance p s =
    let total = counted_or p.total_count s.total_count in
    let processed = counted_or p.processed_count s.processed_count in
    record s {
      percent = max s.percent (min 100 (count p.percent));
      processed_count = if total == 0 then processed else min processed total;
      total_count = total;
    }

abbrev pub finish_time : Status → String → Option String
finish_time running now = none
finish_time success now = some now
finish_time failed now = some now

unfoldable pub payload_of : String → Publication → SyncProgress → ProgressPayload
payload_of now p s = record {
  operation_id = s.operation_id;
  task_id = s.task_id;
  target_id = s.target_id;
  trigger = s.trigger;
  status = p.status;
  phase = p.phase;
  message = p.message;
  percent = s.percent;
  processed_count = s.processed_count;
  total_count = s.total_count;
  started_at = s.started_at;
  updated_at = now;
  error = p.error;
  finished_at = finish_time p.status now;
}

-- `_publish`
unfoldable pub publish : String → Publication → SyncProgress → SyncProgress × ProgressPayload
publish now p s = let advanced = advance p s in (advanced, payload_of now p advanced)

-- The calls that a synchronization makes: `start`, `report`, `complete`, `fail`.
pub data Call : Type 0 where
  start : String → Call
  report : String → String → ℤ → Option ℤ → Option ℤ → Call
  complete fail : String → Call

unfoldable pub publication : Call → SyncProgress → Publication
publication (start message) s = record {
  status = running;
  phase = "preparing";
  message = message;
  percent = pos 0;
  processed_count = none;
  total_count = none;
  error = "";
}
publication (report phase message percent processed total) s = record {
  status = running;
  phase = phase;
  message = message;
  percent = percent;
  processed_count = processed;
  total_count = total;
  error = "";
}
publication (complete message) s = record {
  status = success;
  phase = "complete";
  message = message;
  percent = pos 100;
  processed_count = none;
  total_count = none;
  error = "";
}
publication (fail message) s = record {
  status = failed;
  phase = "failed";
  message = "汇总失败";
  percent = pos s.percent;
  processed_count = none;
  total_count = none;
  error = message;
}

-- The payloads that a sequence of calls publishes, at the times given.
unfoldable pub published : List (String × Call) → SyncProgress → List ProgressPayload
published [] s = []
published ((now, c) ∷ calls) s =
    let r = publish now (publication c s) s in r.1 ∷ published calls r.0

-- From `least` on the percentages never fall, none exceeds 100, and no payload counts more files
-- than its total.
abbrev pub IsSteady : ℕ → List ProgressPayload → Type 0
IsSteady least [] = Unit {0}
IsSteady least (p ∷ ps) =
    (least ≤ p.percent)
    × (p.percent ≤ 100)
    × ((p.total_count ≡ 0) ⊎ (p.processed_count ≤ p.total_count))
    × IsSteady p.percent ps

advance_lem :
    (p : Publication) (s : SyncProgress)
    → s.percent ≤ 100
    → let a = advance p s in
      (s.percent ≤ a.percent)
      × (a.percent ≤ 100)
      × ((a.total_count ≡ 0) ⊎ (a.processed_count ≤ a.total_count))
unfolding advance
advance_lem p s h = (ground arith, ground arith, ground arith)

-- Whatever a synchronization reports, in whatever order, the bar that it publishes never moves back,
-- stays within 100, and shows no more files done than there are, where their number is known.
pub published-IsSteady :
    (calls : List (String × Call)) (s : SyncProgress)
    → s.percent ≤ 100
    → IsSteady s.percent (published calls s)
unfolding published publish payload_of
published-IsSteady [] s h = tt
published-IsSteady ((now, c) ∷ calls) s h =
    let a = advance (publication c s) s in
    let (rises, bounded, counted) = advance_lem (publication c s) s h in
    (rises, bounded, counted, published-IsSteady calls a bounded)
