-- ===== src/Gateway/Proxy/Paths.antt =====
-- What reaches a backend.
use Prim.Native.String.append
use text.Mathlib.Text.{starts_with}
use trade_bench.Common.{◌≡◌, refl, ap, ◌∙◌, String, true}
use trade_bench.Gateway.Proxy.{Url, Forwarded, join_path, proxied, ws_proxied}

-- The scheme that the handler of WebSockets writes is overwritten by the director: both proxies send
-- the same.
pub ws_proxied-proxied : (u : Url) (r : Forwarded) → ws_proxied u r ≡ proxied u r
unfolding ws_proxied proxied
ws_proxied-proxied u r = refl

pub join_path-empty : (path : String) → starts_with path "/" ≡ true → join_path "" path ≡ path
unfolding join_path
join_path-empty path h = rw h (append.nil path)

-- A target without a path of its own gets the request under the path that it had.
pub proxied-path :
    (u : Url) (r : Forwarded)
    → u.path ≡ ""
    → starts_with r.url.path "/" ≡ true
    → (proxied u r).url.path ≡ r.url.path
unfolding proxied
proxied-path u r e h = ap (λ p. join_path p r.url.path) e ∙ join_path-empty r.url.path h
