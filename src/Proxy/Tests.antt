-- ===== src/Proxy/Tests.antt =====
-- The theorem about proxies at a concrete input.
use coherence_operator.Prelude.{
  ◌≡◌, refl, List, ℕ, [], ◌∷◌, ◌++◌, map, none, some, true, codes, arith, text_eq, is_space,
}
use coherence_operator.Runtime.{World, ok, update}
use coherence_operator.Runtime.Sample.{sample_host, sample_world, upper_char}
use coherence_operator.Proxy.{ReqUrl, check_bypass, get_proxy_url}
use coherence_operator.Proxy.Bypass.{IsUpperCase, get_proxy_url-bypass}

abbrev request : ReqUrl
request = record { protocol = codes "https:"; hostname = codes "api.corp.example"; port = none }

abbrev proxied_world : World
proxied_world = record sample_world {
  env =
      update (update sample_world.env (codes "no_proxy") (some (codes "a, Corp.Example\t,b")))
        (codes "https_proxy") (some (codes "http://proxy:8080"));
}

map_upper-append : (s t : List ℕ) → map upper_char (s ++ t) ≡ map upper_char s ++ map upper_char t
map_upper-append [] t = refl
map_upper-append (c ∷ s) t = rw (map_upper-append s t) refl

map_upper-nil : (s : List ℕ) → map upper_char s ≡ [] → s ≡ []
map_upper-nil [] e = refl
map_upper-nil (c ∷ s) e = cc

to_upper-IsUpperCase : IsUpperCase sample_host.to_upper
to_upper-IsUpperCase = record {
  on_append = map_upper-append;
  on_dot = refl;
  on_empty = map_upper-nil;
}

-- The second of three entries is the domain, in other letters and with white space around it.
get_proxy_url-bypass_example :
    (check_bypass sample_host proxied_world request ≡ true)
    × (get_proxy_url (λ text. ok text) sample_host proxied_world request ≡ ok none)
unfolding is_space text_eq
get_proxy_url-bypass_example =
    get_proxy_url-bypass sample_host to_upper-IsUpperCase request (some (codes "a"))
      (some (codes "b")) (codes " ") (codes "Corp.Example") (codes "\t") (codes "api")
      (codes "corp.example") (ground arith) (ground arith) (ground arith) (omega arith) (λ e. cc)
      refl refl proxied_world refl (λ text. ok text)
