-- ===== src/Proxy.antt =====
-- lib/proxy.js of @actions/http-client in dist/index.js of .github/actions/setup-oras-2.0.1: whether a
-- request goes over a proxy. The class `DecodedURL` and the URL parser below it are the parameter
-- `decoded_url`, which throws on what is no URL.
mod Entries
pub mod Bypass
mod Tests
use coherence_operator.Prelude.{
  ℕ, List, [], ◌∷◌, ◌++◌, Option, none, some, Bool, true, false, not, ◌&&◌, ◌||◌, any, filter, map,
  Text, codes, text_eq, is_empty, starts_with, ends_with, split, trim, if◌then◌else◌,
}
use coherence_operator.Runtime.{World, Host, Result, ok, throws, pending, or_empty, decimal}

-- The parts of a parsed URL that are read. The port is none where it is the protocol's own.
pub record ReqUrl : Type 0 where
  pub protocol : Text
  pub hostname : Text
  pub port : Option ℕ

unfoldable pub is_loopback_address : Host → Text → Bool
is_loopback_address h host =
    let host_lower = h.to_lower host in
    text_eq host_lower (codes "localhost")
    || starts_with host_lower (codes "127.")
    || starts_with host_lower (codes "[::1]")
    || starts_with host_lower (codes "[0:0:0:0:0:0:0:1]")

-- `reqPort`, none where it is undefined.
unfoldable pub req_port : ReqUrl → Option ℕ
req_port req_url = elim req_url.port [
  | some port ↦ some port
  | none ↦
      if text_eq req_url.protocol (codes "http:")
      then some 80
      else if text_eq req_url.protocol (codes "https:")
      then some 443
      else none
]

-- `first || second`, for two environment variables.
unfoldable pub env_or : World → Text → Text → Text
env_or w first second =
    let value = or_empty (w.env first) in if is_empty value then or_empty (w.env second) else value

unfoldable pub with_port : Text → Option ℕ → List Text
with_port host none = []
with_port host (some port) = (host ++ (b':' ∷ decimal port)) ∷ []

unfoldable pub upper_req_hosts : Host → ReqUrl → List Text
unfolding with_port req_port
upper_req_hosts h req_url =
    let host = h.to_upper req_url.hostname in host ∷ with_port host (req_port req_url)

-- The items of the list in `no_proxy`.
unfoldable pub no_proxy_items : Host → Text → List Text
no_proxy_items h no_proxy =
    filter (λ x. not (is_empty x)) (map (λ x. h.to_upper (trim x)) (split b',' no_proxy))

unfoldable pub is_matched : List Text → Text → Bool
is_matched hosts item =
    text_eq item (codes "*")
    || any
        (λ x.
          text_eq x item
          || ends_with x (b'.' ∷ item)
          || (starts_with item (codes ".") && ends_with x item))
        hosts

unfoldable pub check_bypass : Host → World → ReqUrl → Bool
unfolding is_matched
check_bypass h w req_url =
    let no_proxy = env_or w (codes "no_proxy") (codes "NO_PROXY") in
    if is_empty req_url.hostname
    then false
    else if is_loopback_address h req_url.hostname
    then true
    else if is_empty no_proxy
    then false
    else any (is_matched (upper_req_hosts h req_url)) (no_proxy_items h no_proxy)

-- The variable `proxyVar`; an empty text stands for undefined.
unfoldable pub proxy_var : World → ReqUrl → Text
unfolding env_or
proxy_var w req_url =
    if text_eq req_url.protocol (codes "https:")
    then env_or w (codes "https_proxy") (codes "HTTPS_PROXY")
    else env_or w (codes "http_proxy") (codes "HTTP_PROXY")

module _ {U : Type 0} (decoded_url : Text → Result U) where
  -- The `catch`: one more try, for a text without a protocol.
  unfoldable pub without_protocol : Text → Result (Option U)
  without_protocol value =
      if not (starts_with value (codes "http://")) && not (starts_with value (codes "https://"))
      then elim (decoded_url (codes "http://" ++ value)) [
        | ok url ↦ ok (some url)
        | throws e ↦ throws e
        | pending ↦ pending
      ]
      else ok none

  unfoldable pub get_proxy_url : Host → World → ReqUrl → Result (Option U)
  unfolding without_protocol
  get_proxy_url h w req_url =
      let value = proxy_var w req_url in
      if check_bypass h w req_url
      then ok none
      else if is_empty value
      then ok none
      else elim (decoded_url value) [
        | ok url ↦ ok (some url)
        | throws e ↦ without_protocol value
        | pending ↦ pending
      ]
