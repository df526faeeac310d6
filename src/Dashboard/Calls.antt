-- ===== src/Dashboard/Calls.antt =====
-- Which calls of the console the gateway answers (dashboard/src/App.tsx, src/app.js).
use sentinel_adc.Base.{
  ◌≡◌, ◌∙◌, ◌⊎◌, refl, ap, Bool, true, false, not, ◌&&◌, String, Option, List, [], ◌∷◌, arith,
  Bool-cases, inl, inr, str_eq,
}
use sentinel_adc.Api.Table.{
  Method, post, delete, literal, param, Pattern, Entry, on, protect, Express, mounts, Dispatched,
  handled, unauthorized, unanswered, through, dispatch,
}
use sentinel_adc.Dashboard.{
  Dashboard, Call, Answer, call_of, override_body, refused, Refresh, handle_node_override,
  handle_unblock_ip, handle_clear_cache, handle_invalidate_cache,
}

-- A pattern and a path in lower case: as many segments, and each literal is the segment at its place.
abbrev pub fits : Pattern → List String → Bool
fits [] [] = true
fits [] (s ∷ ss) = false
fits (p ∷ ps) [] = false
fits (literal t ∷ ps) (s ∷ ss) = str_eq t s && fits ps ss
fits (param ∷ ps) (s ∷ ss) = not (str_eq s "") && fits ps ss

abbrev pub begins : Pattern → List String → Bool
begins [] path = true
begins (p ∷ ps) [] = false
begins (literal t ∷ ps) (s ∷ ss) = str_eq t s && begins ps ss
begins (param ∷ ps) (s ∷ ss) = not (str_eq s "") && begins ps ss

-- What is used of Express, for a path in lower case.
abbrev pub IsExpress : Express → List String → Type 0
IsExpress express path =
    (p : Pattern) → (express.matches p path ≡ fits p path) × (express.starts p path ≡ begins p path)

abbrev pub segments : Express
segments = record { matches = fits; starts = begins }

through-segments :
    (express : Express) (valid : Bool) (m : Method) (path : List String) (es : List Entry)
    → IsExpress express path
    → through express valid m path es ≡ through segments valid m path es
unfolding through
through-segments express valid m path [] law = refl
through-segments express valid m path (on n p ∷ es) law =
    rw ((law p).0, through-segments express valid m path es law) refl
through-segments express valid m path (protect p ∷ es) law =
    rw ((law p).1, through-segments express valid m path es law) refl

dispatch-segments :
    (express : Express) (valid : Bool) (m : Method) (path : List String) (rs : List (List Entry))
    → IsExpress express path
    → dispatch express valid m path rs ≡ dispatch segments valid m path rs
unfolding dispatch
dispatch-segments express valid m path [] law = refl
dispatch-segments express valid m path (r ∷ rs) law =
    rw (through-segments express valid m path r law, dispatch-segments express valid m path rs law)
      refl

-- The gateway as the console meets it: the answers of the routes, by their patterns, to what is dispatched
-- to one, and a status that is no success for the rest.
unfoldable pub by_route : {A : Type 0} → (Pattern → Call → Answer A) → Call → Dispatched → Answer A
by_route routes call (handled p) = routes p call
by_route routes call unauthorized = refused
by_route routes call unanswered = refused

unfoldable pub gateway_api :
    {A : Type 0} → Express → (Option String → Bool) → (Pattern → Call → Answer A) → Call → Answer A
unfolding by_route
gateway_api express valid routes call =
    by_route routes call (dispatch express (valid call.token) call.method call.path mounts)

-- A call that no pattern fits, whatever its token is.
abbrev Stray : Method → List String → Type 0
Stray m path =
    (dispatch segments true m path mounts ≡ unanswered)
    × ((dispatch segments false m path mounts ≡ unauthorized)
        ⊎ (dispatch segments false m path mounts ≡ unanswered))

module _ {A : Type 0} (express : Express) (valid : Option String → Bool)
    (routes : Pattern → Call → Answer A) where
  not_handled :
      (call : Call) (token : Bool) (x : Dispatched)
      → valid call.token ≡ token
      → dispatch segments token call.method call.path mounts ≡ x
      → IsExpress express call.path
      → by_route routes call x ≡ refused
      → gateway_api express valid routes call ≡ refused
  unfolding gateway_api
  not_handled call token x v e law no_route =
      ap (by_route routes call) (
        ap (λ t. dispatch express t call.method call.path mounts) v
        ∙ dispatch-segments express token call.method call.path mounts law
        ∙ e)
      ∙ no_route

  Stray-refused :
      (call : Call)
      → IsExpress express call.path
      → Stray call.method call.path
      → gateway_api express valid routes call ≡ refused
  unfolding by_route
  Stray-refused call law (open_, closed) = elim (Bool-cases (valid call.token)) [
    | inl v ↦ not_handled call true unanswered v open_ law refl
    | inr v ↦ elim closed [
      | inl e ↦ not_handled call false unauthorized v e law refl
      | inr e ↦ not_handled call false unanswered v e law refl
    ]
  ]

-- Nothing but the log has changed.
abbrev pub OnlyLogs : Dashboard → Dashboard × List Refresh → Type 0
OnlyLogs d (d', refreshes) = (d' ≡ record d { custom_logs = d'.custom_logs }) × (refreshes ≡ [])

override_unrouted : Stray post ("api" ∷ "health" ∷ "override" ∷ [])
unfolding dispatch
override_unrouted = (refl, inl refl)

unblock_unrouted : Stray delete ("api" ∷ "security" ∷ "blocklist" ∷ [])
unfolding dispatch
unblock_unrouted = (refl, inl refl)

clear_unrouted : Stray post ("api" ∷ "cache" ∷ "clear" ∷ [])
unfolding dispatch
clear_unrouted = (refl, inl refl)

invalidate_unrouted : Stray post ("api" ∷ "cache" ∷ "invalidate" ∷ [])
unfolding dispatch
invalidate_unrouted = (refl, inl refl)

-- What Express does with the four paths.
abbrev pub IsExpressHere : Express → Type 0
IsExpressHere express =
    IsExpress express ("api" ∷ "health" ∷ "override" ∷ [])
    × IsExpress express ("api" ∷ "security" ∷ "blocklist" ∷ [])
    × IsExpress express ("api" ∷ "cache" ∷ "clear" ∷ [])
    × IsExpress express ("api" ∷ "cache" ∷ "invalidate" ∷ [])

module _ (time : String) (trim : String → String) (api : Call → Answer (Unit {0})) (d : Dashboard)
    (online : d.online ≡ true) where
  override_logs :
      (id : String) (status : Option String)
      → api (
          call_of time trim post
            ("api" ∷ "health" ∷ "override" ∷ [])
            (override_body time trim id status)
            d)
        ≡ refused
      → OnlyLogs d (handle_node_override time trim api id status d)
  unfolding handle_node_override
  override_logs id status h = rw (online, h) (ground arith, refl)

  unblock_logs :
      (ip : String)
      → api (call_of time trim delete ("api" ∷ "security" ∷ "blocklist" ∷ []) (("ip", ip) ∷ []) d)
        ≡ refused
      → OnlyLogs d (handle_unblock_ip time trim api ip d)
  unfolding handle_unblock_ip
  unblock_logs ip h = rw (online, h) (ground arith, refl)

  clear_logs :
      api (call_of time trim post ("api" ∷ "cache" ∷ "clear" ∷ []) [] d) ≡ refused
      → OnlyLogs d (handle_clear_cache time trim api d)
  unfolding handle_clear_cache
  clear_logs h = rw (online, h) (ground arith, refl)

  invalidate_logs :
      api (
          call_of time trim post
            ("api" ∷ "cache" ∷ "invalidate" ∷ [])
            (("pattern", trim d.invalidate_pattern) ∷ [])
            d)
        ≡ refused
      → OnlyLogs d (handle_invalidate_cache time trim api d)
  unfolding handle_invalidate_cache
  invalidate_logs h = elim (Bool-cases (str_eq (trim d.invalidate_pattern) "")) [
    | inl e ↦ rw e (refl, refl)
    | inr e ↦ rw (e, online, h) (ground arith, refl)
  ]

module _ (time : String) (trim : String → String) (express : Express) (valid : Option String → Bool)
    (routes : Pattern → Call → Answer (Unit {0})) where
  -- While the console is online, the buttons to override a backend, to release an address, to clear the
  -- cache and to invalidate a pattern do nothing but write to the console's own log, whoever is logged in
  -- and whatever the routes of the gateway answer: no route has the method and path of their calls.
  pub handlers_stray :
      (d : Dashboard) (id ip : String) (status : Option String)
      → d.online ≡ true
      → IsExpressHere express
      → let api = gateway_api express valid routes in
        OnlyLogs d (handle_node_override time trim api id status d)
        × OnlyLogs d (handle_unblock_ip time trim api ip d)
        × OnlyLogs d (handle_clear_cache time trim api d)
        × OnlyLogs d (handle_invalidate_cache time trim api d)
  handlers_stray d id ip status online (override, unblock, clear, invalidate) =
      let api = gateway_api express valid routes in
      let refuse = Stray-refused express valid routes in
      (
        override_logs time trim api d online id status (refuse _ override override_unrouted),
        unblock_logs time trim api d online ip (refuse _ unblock unblock_unrouted),
        clear_logs time trim api d online (refuse _ clear clear_unrouted),
        invalidate_logs time trim api d online (refuse _ invalidate invalidate_unrouted),
      )
