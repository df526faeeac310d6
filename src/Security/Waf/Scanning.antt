-- ===== src/Security/Waf/Scanning.antt =====
-- What the firewall finds.
use sentinel_adc.Base.{
  ◌≡◌, ◌≢◌, ◌⊎◌, sym, ap, refl, Bool, false, String, Option, none, some, List, [], ◌∷◌, ◌++◌, All,
  arith, Option-cases, Bool-cases, inl, inr,
}
use sentinel_adc.Http.{
  Request, Strings, Payload, Items, Fields, text, array, object, scalar, no_items, item, no_fields,
  field,
}
use sentinel_adc.Security.{Event, Stamp, Regex, Verdict, passes, answers, first_match, log_event}
use sentinel_adc.Security.Waf.{
  Match, or_else, matched, scan_text, scan_payload, scan_items, scan_fields, sqli_patterns,
  xss_patterns, inspect, path_scanned, query_scanned, body_scanned, body_found, blocked,
}

-- The texts of a payload: its keys and texts, in the order in which they are written.
abbrev mutual
  pub texts : Payload → List String
  texts (text s) = s ∷ []
  texts (array xs) = item_texts xs
  texts (object fs) = field_texts fs
  texts scalar = []

  pub item_texts : Items → List String
  item_texts no_items = []
  item_texts (item v vs) = texts v ++ item_texts vs

  pub field_texts : Fields → List String
  field_texts no_fields = []
  field_texts (field key v fs) = key ∷ texts v ++ field_texts fs

abbrev pub first_found : (Regex → String → Bool) → List String → Option Match
first_found test [] = none
first_found test (s ∷ ss) = or_else (scan_text test s) (first_found test ss)

or_else-none {ℓ} : {A : Type ℓ} (a : Option A) → or_else a none ≡ a
or_else-none none = refl
or_else-none (some x) = refl

first_found-append :
    (test : Regex → String → Bool) (ss ts : List String)
    → first_found test (ss ++ ts) ≡ or_else (first_found test ss) (first_found test ts)
first_found-append test [] ts = refl
first_found-append test (s ∷ ss) ts = elim (Option-cases (scan_text test s)) [
  | inl clean ↦ rw clean (first_found-append test ss ts)
  | inr (m, found) ↦ rw found refl
]

mutual
  unfolding scan_payload scan_items scan_fields

  scan_payload-first_found :
      (test : Regex → String → Bool) (p : Payload)
      → scan_payload test p ≡ first_found test (texts p)
  scan_payload-first_found test (text s) = sym (or_else-none (scan_text test s))
  scan_payload-first_found test (array xs) = scan_items-first_found test xs
  scan_payload-first_found test (object fs) = scan_fields-first_found test fs
  scan_payload-first_found test scalar = refl

  scan_items-first_found :
      (test : Regex → String → Bool) (xs : Items)
      → scan_items test xs ≡ first_found test (item_texts xs)
  scan_items-first_found test no_items = refl
  scan_items-first_found test (item v vs) =
      rw (scan_payload-first_found test v, scan_items-first_found test vs)
        (sym (first_found-append test (texts v) (item_texts vs)))

  scan_fields-first_found :
      (test : Regex → String → Bool) (fs : Fields)
      → scan_fields test fs ≡ first_found test (field_texts fs)
  scan_fields-first_found test no_fields = refl
  scan_fields-first_found test (field key v fs) =
      rw (scan_payload-first_found test v, scan_fields-first_found test fs)
        (ap (or_else (scan_text test key))
          (sym (first_found-append test (texts v) (field_texts fs))))

-- No pattern of either attack matches the text.
abbrev pub Harmless : (Regex → String → Bool) → String → Type 0
Harmless test s =
    All (λ r. test r s ≡ false) sqli_patterns × All (λ r. test r s ≡ false) xss_patterns

-- The scan of a payload finds the match of its first text that has one, keys and values taken in the
-- order in which they are written, however deep they stand.
pub scan_payload-first :
    (test : Regex → String → Bool) (p : Payload) → scan_payload test p ≡ first_found test (texts p)
scan_payload-first = scan_payload-first_found

first_match-clean :
    (test : Regex → String → Bool) (rs : List Regex) (s : String)
    → first_match test rs s ≡ none
    → All (λ r. test r s ≡ false) rs
unfolding first_match
first_match-clean test [] s h = tt
first_match-clean test (r ∷ rs) s h = elim (Bool-cases (test r s)) [
  | inl hit ↦ ground arith
  | inr clean ↦ (clean, first_match-clean test rs s (ground arith))
]

clean-first_match :
    (test : Regex → String → Bool) (rs : List Regex) (s : String)
    → All (λ r. test r s ≡ false) rs
    → first_match test rs s ≡ none
unfolding first_match
clean-first_match test [] s h = refl
clean-first_match test (r ∷ rs) s (clean, h) = rw clean (clean-first_match test rs s h)

matched-none :
    (a b s : String) (o o' : Option Regex)
    → or_else (matched a s o) (matched b s o') ≡ none
    → (o ≡ none) × (o' ≡ none)
unfolding matched
matched-none a b s none none h = (refl, refl)
matched-none a b s none (some r) h = cc
matched-none a b s (some r) o' h = cc

scan_text-clean :
    (test : Regex → String → Bool) (s : String) → scan_text test s ≡ none → Harmless test s
unfolding scan_text
scan_text-clean test s h =
    let (no_sqli, no_xss) =
      matched-none "sqli" "xss" s (first_match test sqli_patterns s)
        (first_match test xss_patterns s) h in
    (first_match-clean test sqli_patterns s no_sqli, first_match-clean test xss_patterns s no_xss)

clean-scan_text :
    (test : Regex → String → Bool) (s : String) → Harmless test s → scan_text test s ≡ none
unfolding scan_text
clean-scan_text test s (h, k) =
    rw (clean-first_match test sqli_patterns s h, clean-first_match test xss_patterns s k)

found-clean :
    (test : Regex → String → Bool) (ss : List String)
    → first_found test ss ≡ none
    → All (Harmless test) ss
found-clean test [] h = tt
found-clean test (s ∷ ss) h = elim (Option-cases (scan_text test s)) [
  | inl clean ↦ (scan_text-clean test s clean, found-clean test ss (rw clean at h))
  | inr (m, found) ↦ ground arith
]

clean-found :
    (test : Regex → String → Bool) (ss : List String)
    → All (Harmless test) ss
    → first_found test ss ≡ none
clean-found test [] h = refl
clean-found test (s ∷ ss) (clean, h) = rw (clean-scan_text test s clean) (clean-found test ss h)

abbrev pub body_texts : Option Payload → List String
body_texts none = []
body_texts (some p) = texts p

-- All that the firewall looks at.
abbrev pub seen_texts : Request → List String
seen_texts req = req.path ∷ texts req.query ++ body_texts req.body

module _ (strings : Strings) (test : Regex → String → Bool) (upper : String → String)
    (stamp : Stamp) where
  -- What the firewall answers for the match that it finds.
  Refused : Request → List Event → Verdict × List Event → Type 0
  Refused req events out =
      (message : String) × (details : List (String × String)) × (out.0 ≡ answers 403 message)
      × (out.1 ≡ log_event strings stamp "waf-block" req details events)

  blocked-Refused :
      (source place : String) (req : Request) (m : Match) (events : List Event)
      → Refused req events (blocked strings test upper stamp source place req m events)
  unfolding Refused blocked
  blocked-Refused source place req m events = (_, _, refl, refl)

  Outcome : Request → List Event → Option Match → Verdict × List Event → Type 0
  Outcome req events none out = (out.0 ≡ passes) × (out.1 ≡ events)
  Outcome req events (some m) out = Refused req events out

  found-Outcome :
      (req : Request) (o : Option Match) (events : List Event)
      → Outcome req events o (body_found strings test upper stamp req o events)
  unfolding Outcome body_found
  found-Outcome req none events = (refl, refl)
  found-Outcome req (some m) events = blocked-Refused "request-body" "request payload" req m events

  body-Outcome :
      (req : Request) (body : Option Payload) (events : List Event)
      → Outcome req events
          (first_found test (body_texts body))
          (body_scanned strings test upper stamp req body events)
  unfolding Outcome body_scanned
  body-Outcome req none events = (refl, refl)
  body-Outcome req (some p) events =
      rw (← scan_payload-first test p) (found-Outcome req (scan_payload test p) events)

  query-Outcome :
      (req : Request) (o : Option Match) (events : List Event)
      → Outcome req events
          (or_else o (first_found test (body_texts req.body)))
          (query_scanned strings test upper stamp req o events)
  unfolding Outcome query_scanned
  query-Outcome req none events = body-Outcome req req.body events
  query-Outcome req (some m) events = blocked-Refused "query-params" "query parameters" req m events

  path-Outcome :
      (req : Request) (o : Option Match) (events : List Event)
      → Outcome req events
          (or_else o
            (or_else (first_found test (texts req.query)) (first_found test (body_texts req.body))))
          (path_scanned strings test upper stamp req o events)
  unfolding Outcome path_scanned
  path-Outcome req none events =
      rw (← scan_payload-first test req.query)
        (query-Outcome req (scan_payload test req.query) events)
  path-Outcome req (some m) events = blocked-Refused "uri-path" "the URI path" req m events

  inspect-Outcome :
      (req : Request) (events : List Event)
      → Outcome req events
          (first_found test (seen_texts req))
          (inspect strings test upper stamp req events)
  unfolding inspect
  inspect-Outcome req events =
      rw (first_found-append test (texts req.query) (body_texts req.body))
        (path-Outcome req (scan_text test req.path) events)

  Outcome-cases :
      (req : Request) (events : List Event) (o : Option Match) (out : Verdict × List Event)
      → Outcome req events o out
      → ((o ≡ none) × (out.0 ≡ passes) × (out.1 ≡ events)) ⊎ ((o ≢ none) × Refused req events out)
  unfolding Outcome
  Outcome-cases req events none out (h, k) = inl (refl, h, k)
  Outcome-cases req events (some m) out h = inr ((λ e. cc), h)

  -- The firewall lets a request pass, with the log unchanged, exactly when no pattern matches the path, a
  -- key or a text of the query, or one of the body; any other request is answered with status 403 and
  -- one new entry `waf-block` in the log.
  pub inspect_lem :
      (req : Request) (events : List Event)
      → (All (Harmless test) (seen_texts req)
          × (inspect strings test upper stamp req events ≡ (passes, events)))
        ⊎ (¬ All (Harmless test) (seen_texts req)
            × (message : String) × (details : List (String × String)) × (inspect strings test upper
                  stamp req events
                ≡ (answers 403 message, log_event strings stamp "waf-block" req details events)))
  unfolding Refused
  inspect_lem req events = elim (Outcome-cases req events _ _ (inspect-Outcome req events)) [
    | inl (clean, passed, same) ↦ inl (found-clean test (seen_texts req) clean, ground arith)
    | inr (found, (message, details, refused, logged)) ↦
        inr ((λ h. found (clean-found test (seen_texts req) h)), message, details, ground arith)
  ]
