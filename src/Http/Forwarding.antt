-- ===== src/Http/Forwarding.antt =====
-- What a server behind the proxy, and the reader of an error, get to know.
use Prim.Native.String.{◌++◌ as str_append}
use text.Mathlib.TextLemmas.{append-ne-nil_of_right_ne-nil}
use sentinel_adc.Base.{
  ◌≢◌, str_eq_iff, ◌≤◌, ◌≡◌, refl, ap, ◌∙◌, false, String, Option, none, some, [], ◌∷◌, Dict,
  lookup, str_eq, lookup-insert, lookup-insert_self, arith,
}
use sentinel_adc.Http.{
  Request, Strings, truthy, header, get_client_ip, add_proxy_headers, Failure, error_handler,
  nonzero_or, or, append_hop, client_ip, first_hop, set_if,
}

lookup-set_if :
    (name key : String) (v : Option String) (out : Dict String)
    → str_eq name key ≡ false
    → lookup key (set_if name v out) ≡ lookup key out
unfolding set_if
lookup-set_if name key none out h = refl
lookup-set_if name key (some v) out h = ground (arith, lookup-insert name key v out)

forwarded-add_proxy_headers :
    (strings : Strings) (request_id correlation_id : Option String) (req : Request)
    (out : Dict String)
    → lookup "x-forwarded-for" (add_proxy_headers strings request_id correlation_id req out)
      ≡ some (append_hop (truthy (header "x-forwarded-for" req)) (get_client_ip strings req))
unfolding add_proxy_headers
forwarded-add_proxy_headers strings request_id correlation_id req out =
    lookup-set_if "x-correlation-id" "x-forwarded-for"
      (or correlation_id (header "x-correlation-id" req)) _ refl
    ∙ lookup-set_if "x-request-id" "x-forwarded-for" (or request_id (header "x-request-id" req)) _
        refl
    ∙ rw (
      lookup-insert "x-forwarded-host" "x-forwarded-for",
      lookup-insert "x-forwarded-proto" "x-forwarded-for",
      lookup-insert "x-real-ip" "x-forwarded-for",
      lookup-insert "x-forwarded-for" "x-forwarded-for",
    )

-- What is used of the string methods: `s + ", " + t` begins with the pieces of `s` before a comma, a text
-- with no comma is one piece, and trimming leaves a text without blanks.
pub record IsSplit (strings : Strings) (peer : String) : Type 0 where
  pub chain :
      (s t : String)
      → first_hop strings (strings.split (str_append (str_append s ", ") t) ",")
        ≡ first_hop strings (strings.split s ",")
  pub whole : strings.split peer "," ≡ peer ∷ []
  pub trimmed : strings.trim peer ≡ peer

truthy-ne : (s : String) → s ≢ "" → truthy (some s) ≡ some s
truthy-ne s h = ground (arith, str_eq_iff s "")

truthy-append :
    (s t : String)
    → t ≢ ""
    → truthy (some (str_append (str_append s ", ") t)) ≡ some (str_append (str_append s ", ") t)
truthy-append s t h = truthy-ne _ (append-ne-nil_of_right_ne-nil (str_append s ", ") h)

-- The address behind a list of hops.
client_ip-append_hop :
    (strings : Strings) (chain : Option String) (req d : Request)
    → client_ip strings chain req ≢ ""
    → IsSplit strings (client_ip strings chain req)
    → client_ip strings (truthy (some (append_hop chain (client_ip strings chain req)))) d
      ≡ client_ip strings chain req
unfolding client_ip
client_ip-append_hop strings none req d h is_split =
    rw (truthy-ne _ h, is_split.whole) (unfold first_hop in is_split.trimmed)
client_ip-append_hop strings (some chain) req d h is_split =
    rw (truthy-append chain _ h) (is_split.chain chain _)

-- An answer to a failure of the server does not depend on the message, nor outside development on the
-- stack, of the error: two errors with the same codes get the same answer.
pub error_handler-opaque :
    (e e' : Failure) (req : Request)
    → e.status_code ≡ e'.status_code
    → e.status ≡ e'.status
    → 500 ≤ nonzero_or e.status_code (nonzero_or e.status 500)
    → error_handler false e req ≡ error_handler false e' req
unfolding error_handler
error_handler-opaque e e' req h h' server = ground arith

-- A server behind the proxy that reads the client's address as the proxy does finds the one that the
-- proxy has found, whether the request had come through other proxies or not, as long as that address
-- is not empty and is one piece without commas or blanks.
pub client_ip-add_proxy_headers :
    (strings : Strings) (request_id correlation_id : Option String) (req d : Request)
    (out : Dict String)
    → get_client_ip strings req ≢ ""
    → IsSplit strings (get_client_ip strings req)
    → d.headers ≡ add_proxy_headers strings request_id correlation_id req out
    → get_client_ip strings d ≡ get_client_ip strings req
unfolding get_client_ip
client_ip-add_proxy_headers strings request_id correlation_id req d out h is_split received =
    let e =
      ap (lookup "x-forwarded-for") received
      ∙ forwarded-add_proxy_headers strings request_id correlation_id req out in
    ap (λ f. client_ip strings (truthy f) d) e
    ∙ client_ip-append_hop strings (truthy (header "x-forwarded-for" req)) req d h is_split

-- An identifier that is not empty goes to the backend.
pub correlation-add_proxy_headers :
    (strings : Strings) (request_id : Option String) (id : String) (req : Request)
    (out : Dict String)
    → str_eq id "" ≡ false
    → lookup "x-correlation-id" (add_proxy_headers strings request_id (some id) req out) ≡ some id
unfolding add_proxy_headers set_if
correlation-add_proxy_headers strings request_id id req out h =
    rw h (lookup-insert_self "x-correlation-id" id _)
