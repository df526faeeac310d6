-- ===== src/Sample.antt =====
-- The sample backend (backends/server.js). `random n` is `Math.floor(Math.random() * n)` and `value` the other
-- random number; `matches` says how Express compares a path with that of a route. The times, the use of memory,
-- the texts of messages, and what is echoed of the headers and the query are left out.
pub mod Answers
use Prim.Native.String.{◌++◌ as str_append}
use sentinel_adc.Base.{
  ℕ, zero, suc, ◌+◌, ◌-◌, Bool, true, false, ◌&&◌, ◌||◌, String, Option, none, some, List, [], ◌∷◌,
  str_eq, ◌==◌, if◌then◌else◌,
}
use sentinel_adc.Http.{Request, get_or, truthy, header}

-- `parseInt` gives no number, or one; 0 is falsy.
abbrev pub port : Option ℕ → ℕ
port none = 4001
port (some n) = if n == 0 then 4001 else n

unfoldable pub server_name : Option String → Option String → String
server_name name port_text =
    get_or (truthy name) (str_append "backend-" (get_or (truthy port_text) "4001"))

-- The variables of the module.
pub record Sample : Type 0 where
  pub name : String
  pub request_count : ℕ
  pub start_time : ℕ
  -- `process.env.SIMULATE_LATENCY`
  pub simulate_latency : Option String

-- What an answer tells besides the name of the server; a value is `value`, times 100.
pub data Page : Type 0 where
  hello : Option String → Page
  health : ℕ → ℕ → Page
  item : ℕ → ℕ → Page
  users : List (ℕ × String × String) → Page
  slow : ℕ → Page
  failure : String → Page
  echo : String → String → Page

pub record Response : Type 0 where
  pub status : ℕ
  pub server : String
  pub page : Page

-- The middleware: it counts, and waits for this long.
unfoldable pub count : (ℕ → ℕ) → Sample → ℕ × Sample
count random s =
    let s' = record s { request_count = s.request_count + 1 } in
    (
      elim s.simulate_latency [
        | none ↦ random 60 + 20
        | some v ↦ if str_eq v "false" then 0 else random 60 + 20
      ],
      s',
    )

abbrev user_list : List (ℕ × String × String)
user_list = (1, "Alice", "admin") ∷ (2, "Bob", "user") ∷ (3, "Charlie", "user") ∷ []

module _ (matches : String → String → Bool) (random : ℕ → ℕ) (value : ℕ) where
  abbrev ok : Sample → Page → Response
  ok s page = record { status = 200; server = s.name; page = page }

  -- The routes, in their order (Express takes those of `GET` for `HEAD` too), with the time that they wait themselves. `uptime` is in milliseconds.
  unfoldable pub answer : ℕ → Request → Sample → ℕ × Response
  answer now req s =
      let is_get = str_eq req.method "GET" || str_eq req.method "HEAD" in
      if is_get && matches "/" req.path
      then (0, ok s (hello (truthy (header "x-request-id" req))))
      else if is_get && matches "/health" req.path
      then (0, ok s (health (now - s.start_time) s.request_count))
      else if is_get && matches "/api/data" req.path
      then (0, ok s (item (random 1000) value))
      else if is_get && matches "/api/users" req.path
      then (0, ok s (users user_list))
      else if is_get && matches "/slow" req.path
      then (random 1500 + 500, ok s (slow (random 1500 + 500)))
      else if is_get && matches "/error" req.path
      then (
        0,
        record {
          status = 500;
          server = s.name;
          page = failure "Intentional server error for testing";
        },
      )
      else (0, ok s (echo req.method req.path))

  -- A request through the middleware and the routes: after how long the answer comes, the answer, the state.
  unfoldable pub serve : ℕ → Request → Sample → ℕ × Response × Sample
  unfolding count answer
  serve now req s =
      let (waited, s') = count random s in
      let (delay, response) = answer now req s' in (waited + delay, response, s')
