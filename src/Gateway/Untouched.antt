-- ===== src/Gateway/Untouched.antt =====
-- The count of active connections under the operations that do not count: the circuit breaker, the health
-- store and monitor, the routes of the administrator, the engine.
use mathlib.Core.Option
use sentinel_adc.Base.{
  ℕ, ◌≡◌, ◌∙◌, refl, ap, Bool, true, false, String, Option, none, some, List, [], ◌∷◌, arith,
  if◌then◌else◌, str_eq, Bool-cases, Option-cases, inl, inr, lookup,
}
use sentinel_adc.Pool.{Pool, Backend, find, modify}
use sentinel_adc.Pool.Laws.{find-modify}
use sentinel_adc.Circuit.{
  Circuit, closed, opened, half_open, Manager, mark, can_execute, record_success, record_failure,
  reset,
}
use sentinel_adc.Health.{
  Stats, Store, count_check, record_result, update_backend_health_state, override,
}
use sentinel_adc.Health.Monitor.{World, Probe, passed, refused, failed, check_backend}
use sentinel_adc.Drain.{Drains, drain_backend, undrain_backend, timer_expires}
use sentinel_adc.Proxy.{on_response}
use sentinel_adc.Api.{Parsed, negative, natural, change_weight}
use sentinel_adc.Routing.{
  Engine, Request, select_backend, get_healthy_backends, executable, healthy_now,
}
use sentinel_adc.Routing.Probes.{circuit-select_backend}

-- `activeConnections` of a backend.
abbrev pub active : String → Pool → Option ℕ
active j p = Option.map (λ b. b.active_connections) (find j p)

pub map-map {ℓ} :
    {A : Type ℓ} (g : Backend → A) (f : Backend → Backend) (o : Option Backend)
    → ((b : Backend) → g (f b) ≡ g b)
    → Option.map g (Option.map f o) ≡ Option.map g o
map-map g f none same = refl
map-map g f (some b) same = ap some (same b)

map-by :
    (f : Backend → Backend) (g : ℕ → ℕ) (o : Option Backend)
    → ((b : Backend) → (f b).active_connections ≡ g b.active_connections)
    → Option.map (λ b. b.active_connections) (Option.map f o)
      ≡ Option.map g (Option.map (λ b. b.active_connections) o)
map-by f g none by = refl
map-by f g (some b) by = ap some (by b)

pub active-modify :
    (i j : String) (f : Backend → Backend) (p : Pool)
    → ((b : Backend) → (f b).id ≡ b.id)
    → ((b : Backend) → (f b).active_connections ≡ b.active_connections)
    → active j (modify i f p) ≡ active j p
active-modify i j f p keep same = elim (Bool-cases (str_eq i j)) [
  | inl e ↦
      rw (find-modify i j f p keep) (rw e (map-map (λ b. b.active_connections) f (find j p) same))
  | inr e ↦ rw (find-modify i j f p keep) (rw e refl)
]

-- The same for an assignment that changes the count.
pub active-modify_by :
    (i j : String) (f : Backend → Backend) (g : ℕ → ℕ) (p : Pool)
    → ((b : Backend) → (f b).id ≡ b.id)
    → ((b : Backend) → (f b).active_connections ≡ g b.active_connections)
    → active j (modify i f p) ≡ (if str_eq i j then Option.map g (active j p) else active j p)
active-modify_by i j f g p keep by = elim (Bool-cases (str_eq i j)) [
  | inl e ↦ rw (find-modify i j f p keep) (rw e (map-by f g (find j p) by))
  | inr e ↦ rw (find-modify i j f p keep) (rw e refl)
]

active-mark : (c : Circuit) (i j : String) (p : Pool) → active j (modify i (mark c) p) ≡ active j p
active-mark closed i j p = active-modify i j (mark closed) p (λ b. refl) (λ b. refl)
active-mark opened i j p = active-modify i j (mark opened) p (λ b. refl) (λ b. refl)
active-mark half_open i j p = active-modify i j (mark half_open) p (λ b. refl) (λ b. refl)

active-update :
    (s : Stats) (i j : String) (p : Pool)
    → active j (modify i (update_backend_health_state s) p) ≡ active j p
unfolding update_backend_health_state
active-update s i j p =
    active-modify i j (update_backend_health_state s) p (λ b. ground arith) (λ b. ground arith)

-- The circuit breaker.
pub active-can_execute :
    (j id : String) (now at : ℕ) (m : Manager)
    → active j (can_execute id now at m).1.pool ≡ active j m.pool
unfolding can_execute
active-can_execute j id now at m = ground (arith, active-mark half_open id j m.pool)

pub active-record_success :
    (j id : String) (now at : ℕ) (m : Manager)
    → active j (record_success id now at m).pool ≡ active j m.pool
unfolding record_success
active-record_success j id now at m = ground (arith, active-mark closed id j m.pool)

pub active-record_failure :
    (j id error : String) (now at : ℕ) (m : Manager)
    → active j (record_failure id error now at m).pool ≡ active j m.pool
unfolding record_failure
active-record_failure j id error now at m = ground (arith, active-mark opened id j m.pool)

pub active-reset :
    (j id : String) (now at : ℕ) (m : Manager)
    → active j (reset id now at m).1.pool ≡ active j m.pool
unfolding reset
active-reset j id now at m = ground (arith, active-mark closed id j m.pool)

pub active-on_response :
    (j : String) (o : Option String) (status : ℕ) (text : String) (now at : ℕ) (m : Manager)
    → active j (on_response o status text now at m).pool ≡ active j m.pool
unfolding on_response
active-on_response j none status text now at m = refl
active-on_response j (some id) status text now at m =
    ground (arith, active-record_failure j id text now at m, active-record_success j id now at m)

-- The health store and the monitor.
pub active-record_result :
    (j id : String) (success : Bool) (latency now : ℕ) (st : Store)
    → active j (record_result id success latency now st).pool ≡ active j st.pool
unfolding record_result
active-record_result j id success latency now st = elim (Option-cases (lookup id st.stats)) [
  | inl e ↦ rw e refl
  | inr (s, e) ↦ rw e (active-update (count_check success latency now s) id j st.pool)
]

pub active-check_backend :
    (j id : String) (p : Probe) (now at : ℕ) (w : World)
    → active j (check_backend id p now at w).circuit.pool ≡ active j w.circuit.pool
unfolding check_backend
active-check_backend j id (passed latency) now at w =
    active-record_success j id now at _ ∙ active-record_result j id true latency now _
active-check_backend j id (refused error latency) now at w =
    active-record_failure j id error now at _ ∙ active-record_result j id false latency now _
active-check_backend j id (failed error latency) now at w =
    active-record_failure j id error now at _ ∙ active-record_result j id false latency now _

-- The administrator.
pub active-override :
    (j id : String) (healthy : Bool) (st st' : Store)
    → override id healthy st ≡ some st'
    → active j st'.pool ≡ active j st.pool
unfolding override
active-override j id healthy st st' h = grind (arith, active-modify)

pub active-drain_backend :
    (j id : String) (timeout_sec now : ℕ) (s : Drains)
    → active j (drain_backend id timeout_sec now s).1.pool ≡ active j s.pool
unfolding drain_backend
active-drain_backend j id timeout_sec now s = grind (arith, active-modify)

pub active-timer_expires :
    (j id : String) (s : Drains) → active j (timer_expires id s).pool ≡ active j s.pool
unfolding timer_expires
active-timer_expires j id s = grind (arith, active-modify)

pub active-undrain_backend :
    (j id : String) (s : Drains) → active j (undrain_backend id s).1.pool ≡ active j s.pool
unfolding undrain_backend
active-undrain_backend j id s = grind (arith, active-modify)

pub active-change_weight :
    (j id : String) (weight : Option Parsed) (p : Pool)
    → active j (change_weight id weight p).1 ≡ active j p
unfolding change_weight
active-change_weight j id none p = refl
active-change_weight j id (some (negative n)) p = refl
active-change_weight j id (some (natural n)) p = grind (arith, active-modify)

-- The routing engine.
active-executable :
    (j : String) (now at : ℕ) (bs : List Backend) (m : Manager)
    → active j (executable now at bs m).1.pool ≡ active j m.pool
unfolding executable
active-executable j now at [] m = refl
active-executable j now at (b ∷ bs) m = elim (Bool-cases (healthy_now (find b.id m.pool))) [
  | inl up ↦ rw up (
      active-executable j now at bs (can_execute b.id now at m).1
      ∙ active-can_execute j b.id now at m)
  | inr out ↦ rw out (active-executable j now at bs m)
]

module _ (score : Backend → ℕ) (scaled : ℕ → ℕ → ℕ) (hash32 : String → ℕ) (show : ℕ → String)
    (vnodes_per_weight : ℕ) where
  pub active-select_backend :
      (j : String) (req : Request) (now at : ℕ) (e : Engine)
      → active j
          (select_backend score scaled hash32 show vnodes_per_weight req now at e).1.circuit.pool
        ≡ active j e.circuit.pool
  unfolding get_healthy_backends
  active-select_backend j req now at e =
      ap (λ m. active j m.pool)
        (circuit-select_backend score scaled hash32 show vnodes_per_weight req now at e)
      ∙ active-executable j now at e.circuit.pool e.circuit
