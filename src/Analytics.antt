-- ===== src/Analytics.antt =====
-- The request log and its aggregation (src/analytics/analyticsDb.js, analyticsCollector.js,
-- aggregationWorker.js). MongoDB is an argument: what its calls give, an exception included. Latencies
-- are in hundredths of a millisecond, as `elapsedMs` rounds them, rates in hundredths of a percent and
-- times in milliseconds. A rollup of the worker is one step here, and several in Worker.
pub mod Summing
pub mod Groups
pub mod Storing
pub mod Worker
use sentinel_adc.Base.{
  ℕ, suc, ◌+◌, ◌-◌, ◌*◌, ◌/◌, Bool, true, false, not, ◌&&◌, ◌||◌, String, Option, none, some, List,
  [], ◌∷◌, ◌++◌, Dict, lookup, insert, str_eq, ltb, leb, ◌==◌, length, drop, filter, if◌then◌else◌,
  map,
}
use sentinel_adc.Health.{round_div}
use sentinel_adc.Cache.{Reply, failed, replied}
use sentinel_adc.Http.{Request, Strings, get_client_ip, header, truthy, or, get_or}

pub record LogRecord : Type 0 where
  pub request_id : Option String
  pub timestamp : ℕ
  pub ip : String
  pub method : String
  pub path : String
  pub url : String
  pub status_code : ℕ
  pub latency : ℕ
  pub backend_id : Option String
  pub backend_url : Option String
  pub cache_status : Option String
  pub payload_size_bytes : ℕ
  pub user_agent : String
  pub referer : Option String

-- The document of one minute.
pub record Rollup : Type 0 where
  pub time_bucket : ℕ
  pub request_count : ℕ
  pub average_latency : ℕ
  pub min_latency : ℕ
  pub max_latency : ℕ
  pub error_rate : ℕ
  pub cache_hit_ratio : ℕ
  pub bytes_transferred : ℕ
  pub updated_at : ℕ

pub record Totals : Type 0 where
  pub request_count : ℕ
  pub total_latency : ℕ
  pub min_latency : ℕ
  pub max_latency : ℕ
  pub success_count : ℕ
  pub error_count : ℕ
  pub cache_hit_count : ℕ
  pub bytes_transferred : ℕ

-- The calls of the client on its two collections, over a database with states in `S`.
pub record Mongo (S : Type 0) : Type 0 where
  pub insert_log : LogRecord → S → Reply S
  pub insert_aggregate : Rollup → S → Reply S
  pub aggregate : ℕ → ℕ → S → Reply (Option Totals)
  pub replace_one : Rollup → S → Reply S

pub record AnalyticsDb (S : Type 0) : Type 0 where
  pub enabled : Bool
  pub connected : Bool
  pub use_memory_fallback : Bool
  pub db : S
  pub memory_logs : List LogRecord
  pub memory_aggregates : List Rollup

-- `connect`, by whether the server answers; `close`, by whether there is a client and it closes.
unfoldable pub connect : {S : Type 0} → Bool → AnalyticsDb S → AnalyticsDb S
connect answers d =
    if answers
    then record d { connected = true; use_memory_fallback = false }
    else record d { use_memory_fallback = true }

unfoldable pub close : {S : Type 0} → Bool → AnalyticsDb S → AnalyticsDb S
close closes d = if closes then record d { connected = false } else d

abbrev pub is_active : {S : Type 0} → AnalyticsDb S → Bool
is_active d = d.enabled && (d.use_memory_fallback || d.connected)

-- `push`, then `shift` if there are more than the limit.
unfoldable pub push {ℓ} : {A : Type ℓ} → ℕ → A → List A → List A
push limit x xs = let xs' = xs ++ x ∷ [] in if ltb limit (length xs') then drop 1 xs' else xs'

-- The document takes the place of the first one of its minute, or is pushed at the end.
unfoldable pub upsert : Rollup → List Rollup → List Rollup
upsert r [] = r ∷ []
upsert r (x ∷ xs) = if x.time_bucket == r.time_bucket then r ∷ xs else x ∷ upsert r xs

unfoldable pub cap : ℕ → List Rollup → List Rollup
cap limit xs = if ltb limit (length xs) then drop 1 xs else xs

abbrev pub is_hit : Option String → Bool
is_hit none = false
is_hit (some v) = str_eq v "HIT"

abbrev pub succeeds : LogRecord → Bool
succeeds l = ltb l.status_code 400

abbrev pub hits : LogRecord → Bool
hits l = is_hit l.cache_status

-- One round of the loop of `aggregateLogs`.
unfoldable pub add_log : LogRecord → Totals → Totals
add_log l t = record t {
  total_latency = t.total_latency + l.latency;
  min_latency = if ltb l.latency t.min_latency then l.latency else t.min_latency;
  max_latency = if ltb t.max_latency l.latency then l.latency else t.max_latency;
  success_count = if succeeds l then t.success_count + 1 else t.success_count;
  error_count = if succeeds l then t.error_count else t.error_count + 1;
  cache_hit_count = if hits l then t.cache_hit_count + 1 else t.cache_hit_count;
  bytes_transferred = t.bytes_transferred + l.payload_size_bytes;
}

unfoldable pub add_logs : Totals → List LogRecord → Totals
unfolding add_log
add_logs t [] = t
add_logs t (l ∷ ls) = add_logs (add_log l t) ls

-- The loop begins with the two infinities, which the first record replaces by its own latency.
unfoldable pub totals : List LogRecord → Option Totals
unfolding add_logs
totals [] = none
totals (l ∷ ls) = some (
    add_logs
      (record {
        request_count = length (l ∷ ls);
        total_latency = 0;
        min_latency = l.latency;
        max_latency = l.latency;
        success_count = 0;
        error_count = 0;
        cache_hit_count = 0;
        bytes_transferred = 0;
      })
      (l ∷ ls))

abbrev pub in_window : ℕ → ℕ → LogRecord → Bool
in_window start stop l = leb start l.timestamp && ltb l.timestamp stop

unfoldable pub aggregate_logs : ℕ → ℕ → List LogRecord → Option Totals
unfolding totals
aggregate_logs start stop logs = totals (filter (in_window start stop) logs)

pub record Realtime : Type 0 where
  pub total_requests : ℕ
  pub total_latency : ℕ
  pub success_count : ℕ
  pub cache_hit_count : ℕ

unfoldable pub count_log : LogRecord → Realtime → Realtime
count_log l t = record t {
  total_latency = t.total_latency + l.latency;
  success_count = if succeeds l then t.success_count + 1 else t.success_count;
  cache_hit_count = if hits l then t.cache_hit_count + 1 else t.cache_hit_count;
}

unfoldable pub count_logs : Realtime → List LogRecord → Realtime
unfolding count_log
count_logs t [] = t
count_logs t (l ∷ ls) = count_logs (count_log l t) ls

unfoldable pub realtime_of : List LogRecord → Option Realtime
unfolding count_logs
realtime_of [] = none
realtime_of (l ∷ ls) = some (
    count_logs
      (record {
        total_requests = length (l ∷ ls);
        total_latency = 0;
        success_count = 0;
        cache_hit_count = 0;
      })
      (l ∷ ls))

unfoldable pub aggregate_realtime : ℕ → List LogRecord → Option Realtime
unfolding realtime_of
aggregate_realtime since logs = realtime_of (filter (λ l. leb since l.timestamp) logs)

pub record Group : Type 0 where
  pub backend_url : Option String
  pub request_count : ℕ
  pub total_latency : ℕ
  pub error_count : ℕ
  pub cache_hit_count : ℕ

abbrev pub group_or : Option String → Option Group → Group
group_or url none = record {
  backend_url = url;
  request_count = 0;
  total_latency = 0;
  error_count = 0;
  cache_hit_count = 0;
}
group_or url (some g) = g

unfoldable pub grow : LogRecord → Group → Group
grow l g = record g {
  request_count = g.request_count + 1;
  total_latency = g.total_latency + l.latency;
  error_count = if leb 400 l.status_code then g.error_count + 1 else g.error_count;
  cache_hit_count = if hits l then g.cache_hit_count + 1 else g.cache_hit_count;
}

-- The groups of the records that a backend has answered.
add_to : Option String → LogRecord → Dict Group → Dict Group
unfolding grow
add_to none l gs = gs
add_to (some id) l gs = insert id (grow l (group_or l.backend_url (lookup id gs))) gs

unfoldable pub group_logs : Dict Group → List LogRecord → Dict Group
unfolding add_to
group_logs gs [] = gs
group_logs gs (l ∷ ls) = group_logs (add_to l.backend_id l gs) ls

pub record BackendReport : Type 0 where
  pub backend_id : String
  pub backend_url : Option String
  pub request_count : ℕ
  pub average_latency : ℕ
  pub error_count : ℕ
  pub cache_hit_count : ℕ

unfoldable pub report : String × Group → BackendReport
unfolding round_div
report (id, g) = record {
  backend_id = id;
  backend_url = g.backend_url;
  request_count = g.request_count;
  average_latency = round_div g.total_latency g.request_count;
  error_count = g.error_count;
  cache_hit_count = g.cache_hit_count;
}

unfoldable pub aggregate_backends : ℕ → List LogRecord → List BackendReport
unfolding group_logs report
aggregate_backends since logs =
    map report (group_logs [] (filter (λ l. leb since l.timestamp) logs))

-- The document of a rollup; the totals count at least one request.
unfoldable pub rollup : ℕ → ℕ → Totals → Rollup
unfolding round_div
rollup bucket now t = record {
  time_bucket = bucket;
  request_count = t.request_count;
  average_latency = if ltb 0 t.request_count then round_div t.total_latency t.request_count else 0;
  min_latency = t.min_latency;
  max_latency = t.max_latency;
  error_rate =
      if ltb 0 t.request_count then round_div (t.error_count * 10000) t.request_count else 0;
  cache_hit_ratio =
      if ltb 0 t.request_count then round_div (t.cache_hit_count * 10000) t.request_count else 0;
  bytes_transferred = t.bytes_transferred;
  updated_at = now;
}

abbrev pub bucket_of : ℕ → ℕ
bucket_of now = now / 60000 * 60000

-- The record of a finished response: the headers that the handlers have set on it, the backend that the
-- router has noted, the identifier and the address of which may be absent, and the parsed length of the
-- content, 0 if there is none.
pub record Response : Type 0 where
  pub status_code : ℕ
  pub headers : Dict String
  pub content_length : ℕ

unfoldable pub log_record :
    Strings → ℕ → ℕ → Request → Option (String × String) → Response → LogRecord
log_record strings now latency req backend res = record {
  request_id = or (lookup "x-request-id" res.headers) (header "x-request-id" req);
  timestamp = now;
  ip = get_client_ip strings req;
  method = req.method;
  path = req.path;
  url = req.original_url;
  status_code = res.status_code;
  latency = latency;
  backend_id = elim (truthy (lookup "x-backend-id" res.headers)) [
    | some id ↦ some id
    | none ↦ elim backend [ some (id, url) ↦ some id | none ↦ none ]
  ];
  backend_url = elim backend [ some (id, url) ↦ some url | none ↦ none ];
  cache_status = truthy (lookup "x-cache" res.headers);
  payload_size_bytes = res.content_length;
  user_agent = get_or (truthy (header "user-agent" req)) "unknown";
  referer = truthy (header "referer" req);
}

module _ {S : Type 0} (mongo : Mongo S) where
  kept : Reply S → AnalyticsDb S → AnalyticsDb S
  kept failed d = d
  kept (replied s) d = record d { db = s }

  -- `insertOne` on the two collections.
  unfoldable pub insert_log : LogRecord → AnalyticsDb S → AnalyticsDb S
  unfolding kept push
  insert_log l d =
      if not (is_active d)
      then d
      else if d.use_memory_fallback
      then record d { memory_logs = push 1000 l d.memory_logs }
      else kept (mongo.insert_log l d.db) d

  unfoldable pub insert_aggregate : Rollup → AnalyticsDb S → AnalyticsDb S
  unfolding kept upsert cap
  insert_aggregate r d =
      if not (is_active d)
      then d
      else if d.use_memory_fallback
      then record d { memory_aggregates = cap 60 (upsert r d.memory_aggregates) }
      else kept (mongo.insert_aggregate r d.db) d

  -- `recordTransaction` of the collector.
  unfoldable pub record_transaction :
      Strings
      → ℕ
      → ℕ
      → Request
      → Option (String × String)
      → Response
      → AnalyticsDb S
      → AnalyticsDb S
  unfolding insert_log log_record
  record_transaction strings now latency req backend res d =
      if not (is_active d) then d else insert_log (log_record strings now latency req backend res) d

  saved : ℕ → ℕ → Option Totals → AnalyticsDb S → AnalyticsDb S
  unfolding insert_aggregate rollup kept
  saved bucket now none d = d
  saved bucket now (some t) d =
      if d.use_memory_fallback
      then insert_aggregate (rollup bucket now t) d
      else kept (mongo.replace_one (rollup bucket now t) d.db) d

  queried : ℕ → ℕ → Reply (Option Totals) → AnalyticsDb S → AnalyticsDb S
  unfolding saved
  queried bucket now failed d = d
  queried bucket now (replied t) d = saved bucket now t d

  -- `runRollup`, by whether one is under way.
  unfoldable pub run_rollup : Bool → ℕ → AnalyticsDb S → AnalyticsDb S
  unfolding queried aggregate_logs
  run_rollup running now d =
      let start = bucket_of now in
      let stop = start + 60000 in
      if not (is_active d) || running
      then d
      else if d.use_memory_fallback
      then saved start now (aggregate_logs start stop d.memory_logs) d
      else queried start now (mongo.aggregate start stop d.db) d

-- The timer of the worker, and the identifier of a new one.
unfoldable pub start : ℕ → Option ℕ → Option ℕ
start id none = some id
start id (some timer) = some timer

abbrev pub stop : Option ℕ → Option ℕ
stop timer = none
