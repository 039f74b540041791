-- ===== src/Proxy/Bypass.antt =====
-- Which requests go around the proxy.
use coherence_operator.Prelude.{
  ◌≡◌, ◌≢◌, refl, ◌∙◌, ap, sym, [], ◌∷◌, ◌++◌, Option, none, some, true, any, Lacks, Text, codes,
  trim, is_empty, ends_with, not, arith, Bool-cases, inl, inr,
}
use coherence_operator.Runtime.{World, Host, Result, ok}
use coherence_operator.Proxy.{
  ReqUrl, is_loopback_address, env_or, upper_req_hosts, no_proxy_items, is_matched, check_bypass,
  get_proxy_url,
}
use coherence_operator.Proxy.Entries.{
  IsSpaces, IsBare, before_entry, after_entry, padded, padded-Lacks, split-entry, trim-padded,
  any-filter-map, ends_with-append, is_empty-ne, entry-ne-nil, append-ne-nil_right,
}

-- What `toUpperCase` is documented to do: it maps the characters of a text one by one, and a dot to
-- itself.
pub record IsUpperCase (to_upper : Text → Text) : Type 0 where
  pub on_append : (s t : Text) → to_upper (s ++ t) ≡ to_upper s ++ to_upper t
  pub on_dot : to_upper (codes ".") ≡ codes "."
  pub on_empty : (s : Text) → to_upper s ≡ [] → s ≡ []

sub_matched :
    (h : Host)
    → (req_url : ReqUrl) → (item : Text)
    → ends_with (h.to_upper req_url.hostname) (b'.' ∷ item) ≡ true
    → is_matched (upper_req_hosts h req_url) item ≡ true
unfolding is_matched upper_req_hosts
sub_matched h req_url item sub = ground (arith, sub)

module _ (h : Host) (upper : IsUpperCase h.to_upper) where
  below_domain :
      (sub same domain : Text)
      → h.to_upper same ≡ h.to_upper domain
      → ends_with (h.to_upper (sub ++ (b'.' ∷ same))) (b'.' ∷ h.to_upper domain) ≡ true
  below_domain sub same domain same_upper =
      let dotted : h.to_upper (b'.' ∷ same) ≡ b'.' ∷ h.to_upper domain =
        upper.on_append (codes ".") same
        ∙ ap (λ x. x ++ h.to_upper same) upper.on_dot
        ∙ ap (λ x. b'.' ∷ x) same_upper in
      ap (λ x. ends_with x (b'.' ∷ h.to_upper domain))
        (upper.on_append sub (b'.' ∷ same) ∙ ap (λ x. h.to_upper sub ++ x) dotted)
      ∙ ends_with-append (h.to_upper sub) (b'.' ∷ h.to_upper domain)

  module _ (req_url : ReqUrl) (left right : Option Text) (pad domain pad' sub same : Text)
      (spaces : IsSpaces pad) (spaces' : IsSpaces pad') (bare : IsBare domain)
      (plain : Lacks b',' domain) (named : domain ≢ [])
      (host : req_url.hostname ≡ sub ++ (b'.' ∷ same))
      (same_upper : h.to_upper same ≡ h.to_upper domain) where
    matched :
        any
          (is_matched (upper_req_hosts h req_url))
          (no_proxy_items h (before_entry left (padded pad domain pad' ++ after_entry right)))
        ≡ true
    unfolding no_proxy_items
    matched =
        let entry = padded pad domain pad' in
        let (before, after, parts) =
          split-entry left right entry (padded-Lacks pad domain pad' spaces spaces' plain) in
        let trimmed = ap h.to_upper (trim-padded pad pad' domain spaces spaces' bare named) in
        let kept = is_empty-ne (h.to_upper domain) λ e. named (upper.on_empty domain e) in
        let below : ends_with (h.to_upper req_url.hostname) (b'.' ∷ h.to_upper domain) ≡ true =
          ap (λ x. ends_with (h.to_upper x) (b'.' ∷ h.to_upper domain)) host
          ∙ below_domain sub same domain same_upper in
        rw parts (
          any-filter-map (is_matched (upper_req_hosts h req_url)) (λ x. not (is_empty x))
            (λ x. h.to_upper (trim x)) before after entry
            (ap (λ x. not (is_empty x)) trimmed ∙ ap not kept)
            (ap (is_matched (upper_req_hosts h req_url)) trimmed
              ∙ sub_matched h req_url (h.to_upper domain) below))

    filled : before_entry left (padded pad domain pad' ++ after_entry right) ≢ []
    filled = entry-ne-nil left right pad domain pad' named

    module _ (w : World)
        (listed : w.env (codes "no_proxy")
          ≡ some (before_entry left (padded pad domain pad' ++ after_entry right))) where
      given :
          env_or w (codes "no_proxy") (codes "NO_PROXY")
          ≡ before_entry left (padded pad domain pad' ++ after_entry right)
      unfolding env_or
      given = rw (listed, is_empty-ne _ filled) refl

      bypassed : check_bypass h w req_url ≡ true
      unfolding check_bypass
      bypassed =
          let host_named : req_url.hostname ≢ [] =
            λ e. append-ne-nil_right sub (b'.' ∷ same) (λ e'. cc) (sym host ∙ e) in
          elim (Bool-cases (is_loopback_address h req_url.hostname)) [
            | inl loop ↦ rw (is_empty-ne _ host_named, loop) refl
            | inr other ↦
                rw (is_empty-ne _ host_named, other, given, is_empty-ne _ filled, matched) refl
          ]

      -- If the variable `no_proxy` has a domain as one of its entries between commas, with any white
      -- space around it, and the host is below that domain, but for the case of letters, the request
      -- goes over no proxy, whatever the other entries and the proxy variables are. The domain has
      -- neither white space nor a comma.
      pub get_proxy_url-bypass :
          {U : Type 0} (decoded_url : Text → Result U)
          → (check_bypass h w req_url ≡ true) × (get_proxy_url decoded_url h w req_url ≡ ok none)
      unfolding get_proxy_url
      get_proxy_url-bypass decoded_url = (bypassed, rw bypassed refl)
