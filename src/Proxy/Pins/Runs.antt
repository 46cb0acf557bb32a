-- ===== src/Proxy/Pins/Runs.antt =====
-- What the map of addresses is after any requests and redirects, and what a connection can go to.
use scopepilot.Prelude.{
  ℕ, ◌≡◌, refl, sym, subst, ◌∙◌, ap, ap₂, ◌≢◌, inl, inr, false, List, [], ◌∷◌, Option, none, some,
  some_inj, arith, All, lookup, Bool-cases, same, same_iff,
}
use scopepilot.Text.{Text, text_keys}
use scopepilot.Normalize.{host, Url}
use scopepilot.Scope.Ip.{is_blocked_ip}
use scopepilot.Proxy.{Proxy, Config, Libraries, Io, new_proxy}
use scopepilot.Proxy.Serve.{Request, serve_http}
use scopepilot.Proxy.Redirect.{
  check_redirect, dial_address, dial_system, dial_context, dial_parts, dial_pinned, Dial,
}
use scopepilot.Proxy.Pins.Stored.{IsPinned, IsSound}
use scopepilot.Proxy.Pins.Served.{serve-IsSound, check_redirect-IsSound}

-- What changes the map: a request that is served, or a redirect of a forwarded request.
pub data Event : Type 0 where
  request : Io → Request → Event
  redirect : Io → Url → ℕ → Event

abbrev event : Libraries → Proxy → Event → Proxy
event w p (request io r) = (serve_http w p r io).0
event w p (redirect io u via) = (check_redirect w p io u via).0

unfoldable pub events : Libraries → Proxy → List Event → Proxy
events w p [] = p
events w p (e ∷ es) = events w (event w p e) es

event-IsSound : (w : Libraries) (p : Proxy) (e : Event) → IsSound w p → IsSound w (event w p e)
event-IsSound w p (request io r) s = serve-IsSound w io p r s
event-IsSound w p (redirect io u via) s = check_redirect-IsSound w io p u via s

-- From a proxy that satisfies it, any sequence of served requests and of redirects leads to a proxy
-- that satisfies it: the map has at most 10000 hosts, each in normal form, and every address of each
-- is in no blocked range.
pub events-IsSound :
    (w : Libraries) (p : Proxy) (es : List Event) → IsSound w p → IsSound w (events w p es)
unfolding events
events-IsSound w p [] s = s
events-IsSound w p (e ∷ es) s = events-IsSound w (event w p e) es (event-IsSound w p e s)

IsPinned-at :
    (w : Libraries) (m : List (Text × List Text)) (h : Text) (ips : List Text)
    → All (IsPinned w) m
    → lookup h m ≡ some ips
    → IsPinned w (h, ips)
unfolding lookup
IsPinned-at w [] h ips all e = cc
IsPinned-at w ((j, js) ∷ m) h ips all e = elim (Bool-cases (same j h)) [
  | inl b ↦
      let found : some js ≡ some ips = rw b at e in
      subst (λ x. IsPinned w x) (ap₂ (λ a c. (a, c)) ((same_iff j h).0 b) (some_inj found)) all.0
  | inr b ↦ IsPinned-at w m h ips all.1 (rw b at e)
]

target : Dial → Text
target (dial_address ip port) = ip
target (dial_system addr) = addr

dialled :
    (w : Libraries) (p : Proxy) (addr ip port : Text) (a : Option (Text × Text))
    → IsSound w p
    → dial_parts p addr a ≡ dial_address ip port
    → is_blocked_ip (w.parse_ip ip) ≡ false
unfolding target
dialled w p addr ip port none s e = cc
dialled w p addr ip port (some (h, to)) s e = by_pin (lookup h p.resolved_ips) refl e
  where
    by_pin :
        (o : Option (List Text))
        → lookup h p.resolved_ips ≡ o
        → dial_pinned addr to o ≡ dial_address ip port
        → is_blocked_ip (w.parse_ip ip) ≡ false
    by_pin none found d = cc
    by_pin (some []) found d = cc
    by_pin (some (x ∷ xs)) found d =
        subst (λ y. is_blocked_ip (w.parse_ip y) ≡ false) (ap target d)
          (IsPinned-at w p.resolved_ips h (x ∷ xs) s.pinned found).1.0

-- After any sequence of served requests and of redirects from a sound proxy, an address of the map
-- that a connection is made to is in no blocked range.
pub events-dial :
    (w : Libraries) (p : Proxy) (es : List Event) (addr ip port : Text)
    → IsSound w p
    → dial_context w (events w p es) addr ≡ dial_address ip port
    → is_blocked_ip (w.parse_ip ip) ≡ false
unfolding dial_context
events-dial w p es addr ip port s e =
    dialled w (events w p es) addr ip port (w.split_host_port addr) (events-IsSound w p es s) e

missing :
    (w : Libraries) (m : List (Text × List Text)) (h : Text)
    → All (IsPinned w) m
    → ((x : Text) → h ≢ host w.to_ascii x)
    → lookup h m ≡ none
unfolding lookup
missing w [] h all never = refl
missing w ((j, js) ∷ m) h all never = elim (Bool-cases (same j h)) [
  | inl b ↦ absurd (never all.0.0.0 (sym ((same_iff j h).0 b) ∙ all.0.0.1))
  | inr b ↦ rw b (missing w m h all.1 never)
]

-- After any sequence of served requests and of redirects from a sound proxy, a connection to a host
-- whose spelling is no normal form, such as one with capital letters, goes to the address as it is
-- spelled, which is looked up again, and never to an address of the map.
pub events-dial_system :
    (w : Libraries) (p : Proxy) (es : List Event) (addr h port : Text)
    → IsSound w p
    → w.split_host_port addr ≡ some (h, port)
    → ((x : Text) → h ≢ host w.to_ascii x)
    → dial_context w (events w p es) addr ≡ dial_system addr
unfolding dial_context
events-dial_system w p es addr h port s split never =
    rw (split, missing w (events w p es).resolved_ips h (events-IsSound w p es s).pinned never)

pub new_proxy-IsSound : (w : Libraries) (cfg : Config) → IsSound w (new_proxy cfg)
unfolding new_proxy
new_proxy-IsSound w cfg = record { size = omega arith; pinned = tt }
