-- ===== src/Gateway/Proxy.antt =====
-- apps/gateway/internal/proxy/proxy.go: how a request is sent on. A URL is parsed by net/url, and
-- the director of `httputil.NewSingleHostReverseProxy` sets the scheme and host of the target and
-- joins its path with the request's by one slash; it leaves the Host header.
pub mod Paths
use Prim.Native.String.{len, slice, ◌++◌ as append}
use text.Mathlib.Text.{starts_with}
use trade_bench.Common.{
  ℕ, suc, ◌-◌, String, Bool, true, false, not, ◌&&◌, Option, none, some, if◌then◌else◌, str_eq,
}

pub record Url : Type 0 where
  pub scheme : String
  pub host : String
  pub path : String

-- A request with its Host header.
pub record Forwarded : Type 0 where
  pub url : Url
  pub host : String

pub data ProxyReply : Type 0 where
  -- What the backend answered.
  answered : ℕ → ProxyReply
  -- 502 with the JSON error of the gateway, and without a body.
  service_unavailable bad_gateway : ProxyReply

ends_in_slash : String → Bool
ends_in_slash a = str_eq (slice a (len a - 1) (len a)) "/"

-- `singleJoiningSlash` of net/http/httputil.
unfoldable pub join_path : String → String → String
unfolding ends_in_slash
join_path a b =
    if ends_in_slash a && starts_with b "/"
    then append a (slice b 1 (len b))
    else if not (ends_in_slash a) && not (starts_with b "/")
    then append a (append "/" b)
    else append a b

-- The director of the standard library's proxy.
unfoldable pub director : Url → Forwarded → Forwarded
unfolding join_path
director u r = record r {
  url = record { scheme = u.scheme; host = u.host; path = join_path u.path r.url.path };
}

-- What `NewProxy` for a target makes of a request: its director is wrapped.
unfoldable pub proxied : Url → Forwarded → Forwarded
unfolding director
proxied u r = record (director u r) { host = u.host }

-- What the handler of `NewWSProxy` writes into the request before its proxy serves it.
unfoldable pub ws_request : Url → Forwarded → Forwarded
ws_request u r = record r {
  url = record {
    scheme = if str_eq u.scheme "https" then "wss" else "ws";
    host = u.host;
    path = r.url.path;
  };
  host = u.host;
}

unfoldable pub ws_proxied : Url → Forwarded → Forwarded
unfolding director ws_request
ws_proxied u r = director u (ws_request u r)

-- The answer of either proxy to its client; `none` where the backend cannot be reached.
unfoldable pub proxy_reply : Option ℕ → ProxyReply
proxy_reply none = service_unavailable
proxy_reply (some code) = answered code

unfoldable pub ws_proxy_reply : Option ℕ → ProxyReply
ws_proxy_reply none = bad_gateway
ws_proxy_reply (some code) = answered code
