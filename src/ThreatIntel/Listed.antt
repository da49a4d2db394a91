-- ===== src/ThreatIntel/Listed.antt =====
-- Where the hits of `IocIndex.match` in `app/threatintel/matcher.py` come from.
use siem_lite.Prelude.{
  ◌≡◌, true, refl, ap, subst, ◌∙◌, sym, List, [], ◌∷◌, ◌++◌, Option, none, some, In, here, there,
  append_cases, ◌⊎◌, if_true, if_false, Bool-cases, inl, inr, some_eq,
}
use siem_lite.Prelude.Dict.{get, set_default_new, set_default_old}
use siem_lite.Text.Chars.{Text, text as by_text}
use siem_lite.Value.Event.{NormalizedEvent}
use siem_lite.ThreatIntel.{
  ExactType, ip, domain, hash, url, IocType, exact, cidr, Ioc, IocHit, Addresses,
}
use siem_lite.ThreatIntel.Index.{
  Table, key_of, token_key, IocIndex, empty_index, add_each, hit_of, exact_hit, network_hit,
  networks_hit, or_network, ip_hit, Hits, add_hit, add_hits, ip_hits, token_hits, guarded_hits,
  tokens, found, values, match,
}
use siem_lite.ThreatIntel.Tables.{HoldsListed, NetworksListed, IsListed, add_each-IsListed}

module _ (net : Addresses) (all : List Ioc) (evt : NormalizedEvent) where
  -- Why a text that the event holds is a hit of an indicator: it is a token of the indicator's type
  -- with its key, or an address in its network.
  abbrev pub Sees : IocType → Text → Text → Type 0
  Sees (exact t) indicator observed =
      In observed (tokens net t evt) × (token_key t observed ≡ key_of t indicator)
  Sees cidr indicator observed =
      In observed (tokens net ip evt)
      × (n : net.Network) × (a : net.Address) × (net.ip_network indicator ≡ some n)
      × (net.ip_address observed ≡ some a)
      × (net.holds n a ≡ true)

  -- A hit shows a listed indicator as it is, and what is observed in the event.
  abbrev pub Shows : IocHit → Type 0
  Shows h =
      (ioc : Ioc) × In ioc all
      × (h ≡ hit_of net ioc.ioc_type ioc h.observed)
      × Sees ioc.ioc_type ioc.indicator h.observed

  -- A hit that is made from a listed indicator of its type.
  made-Shows :
      (t : IocType) (ioc : Ioc) (s : Text) (h : IocHit)
      → In ioc all
      → ioc.ioc_type ≡ t
      → Sees t ioc.indicator s
      → some (hit_of net t ioc s) ≡ some h
      → Shows h
  made-Shows t ioc s h i q sees e =
      let r : hit_of net t ioc s ≡ h = some_eq e in
      let kind = subst (λ u. Sees u ioc.indicator s) (sym q) sees in
      rw (sym r) (ioc, i, ap (λ u. hit_of net u ioc s) (sym q), kind)

  exact_hit-Shows :
      (t : ExactType) (o : Option Ioc) (s : Text) (h : IocHit)
      → In s (tokens net t evt)
      → ((ioc : Ioc)
          → o ≡ some ioc
          → In ioc all × (ioc.ioc_type ≡ exact t) × (key_of t ioc.indicator ≡ token_key t s))
      → exact_hit net t o s ≡ some h
      → Shows h
  exact_hit-Shows t none s h seen l e = absurd (cc)
  exact_hit-Shows t (some ioc) s h seen l e =
      let (i, q, k) = l ioc refl in made-Shows (exact t) ioc s h i q (seen, sym k) e

  abbrev AreTokens : ExactType → List Text → Type 0
  AreTokens t ss = (s : Text) → In s ss → In s (tokens net t evt)

  token_hits-Shows :
      (t : ExactType) (entries : Table) (ss : List Text) (h : IocHit)
      → AreTokens t ss
      → HoldsListed net all t entries
      → In (some h) (token_hits net t entries ss)
      → Shows h
  unfolding token_hits
  token_hits-Shows t entries [] h seen l i = elim i [ ]
  token_hits-Shows t entries (s ∷ ss) h seen l (here e) =
      exact_hit-Shows t (get by_text (token_key t s) entries) s h (seen s (here refl))
        (l (token_key t s)) e
  token_hits-Shows t entries (s ∷ ss) h seen l (there i) =
      token_hits-Shows t entries ss h (λ x j. seen x (there j)) l i

  guarded_hits-Shows :
      (t : ExactType) (entries : Table) (h : IocHit)
      → HoldsListed net all t entries
      → In (some h) (guarded_hits net t entries (tokens net t evt))
      → Shows h
  guarded_hits-Shows t [] h l i = elim i [ ]
  guarded_hits-Shows t (x ∷ entries) h l i =
      token_hits-Shows t (x ∷ entries) (tokens net t evt) h (λ s j. j) l i

  network_hit-Shows :
      (a : net.Address) (cidrs : List (net.Network × Ioc)) (s : Text) (h : IocHit)
      → In s (tokens net ip evt)
      → net.ip_address s ≡ some a
      → NetworksListed net all cidrs
      → network_hit net a cidrs s ≡ some h
      → Shows h
  unfolding network_hit
  network_hit-Shows a [] s h seen k l e = absurd (cc)
  network_hit-Shows a ((n, ioc) ∷ cidrs) s h seen k l e = elim (Bool-cases (net.holds n a)) [
    | inl b ↦
        let (i, q, p) = l n ioc (here refl) in
        made-Shows cidr ioc s h i q (seen, n, a, p, k, b) (sym (if_true (net.holds n a) _ _ b) ∙ e)
    | inr b ↦
        network_hit-Shows a cidrs s h seen k (λ m v i. l m v (there i))
          (sym (if_false (net.holds n a) _ _ b) ∙ e)
  ]

  or_network-Shows :
      (o : Option Ioc) (ix : IocIndex net) (s : Text) (h : IocHit)
      → In s (tokens net ip evt)
      → ((ioc : Ioc) → o ≡ some ioc → In ioc all × (ioc.ioc_type ≡ exact ip) × (ioc.indicator ≡ s))
      → NetworksListed net all ix.cidrs
      → or_network net o ix s ≡ some h
      → Shows h
  or_network-Shows (some ioc) ix s h seen l n e =
      let (i, q, k) = l ioc refl in
      made-Shows (exact ip) ioc s h i q (seen, unfold token_key in sym k) e
  or_network-Shows none ix s h seen l n e = networks_hit-Shows (net.ip_address s) refl e
    where
      networks_hit-Shows :
          (o : Option net.Address)
          → net.ip_address s ≡ o
          → networks_hit net o ix.cidrs s ≡ some h
          → Shows h
      networks_hit-Shows none k q = absurd (cc)
      networks_hit-Shows (some a) k q = network_hit-Shows a ix.cidrs s h seen k n q

  ip_hits-Shows :
      (ix : IocIndex net) (ss : List Text) (h : IocHit)
      → AreTokens ip ss
      → IsListed net all ix
      → In (some h) (ip_hits net ix ss)
      → Shows h
  unfolding ip_hits ip_hit
  ip_hits-Shows ix [] h seen l i = elim i [ ]
  ip_hits-Shows ix (s ∷ ss) h seen (a, b, c, d, n) (here e) =
      or_network-Shows (get by_text s ix.ips) ix s h (seen s (here refl)) (a s) n e
  ip_hits-Shows ix (s ∷ ss) h seen l (there i) = ip_hits-Shows ix ss h (λ x j. seen x (there j)) l i

  add_hit-In :
      (k : Text) (h g : IocHit) (hits : Hits net) (o : Option IocHit)
      → get by_text g.indicator hits ≡ o
      → In {A = Text × IocHit} (k, h) (add_hit net (some g) hits)
      → (g ≡ h) ⊎ In {A = Text × IocHit} (k, h) hits
  add_hit-In k h g hits (some old) q i =
      inr (rw (sym (set_default_old by_text g.indicator g hits q)) i)
  add_hit-In k h g hits none q i =
      elim (append_cases (k, h) hits ((g.indicator, g) ∷ [])
        (rw (sym (set_default_new by_text g.indicator g hits q)) i)) [
          | inl l ↦ inr l
          | inr l ↦ inl (new_hit l)
        ]
    where
      new_hit : In {A = Text × IocHit} (k, h) ((g.indicator, g) ∷ []) → g ≡ h
      new_hit (here e) = ap (λ z. z.1) e
      new_hit (there l) = elim l [ ]

  add_hits-In :
      (k : Text) (h : IocHit) (fs : List (Option IocHit)) (hits : Hits net)
      → In {A = Text × IocHit} (k, h) (add_hits net fs hits)
      → In (some h) fs ⊎ In {A = Text × IocHit} (k, h) hits
  unfolding add_hits
  add_hits-In k h [] hits i = inr i
  add_hits-In k h (none ∷ fs) hits i = elim (add_hits-In k h fs hits i) [
    | inl l ↦ inl (there l)
    | inr l ↦ inr l
  ]
  add_hits-In k h (some g ∷ fs) hits i = elim (add_hits-In k h fs (add_hit net (some g) hits) i) [
    | inl l ↦ inl (there l)
    | inr l ↦ elim (add_hit-In k h g hits (get by_text g.indicator hits) refl l) [
      | inl e ↦ inl (here (ap some e))
      | inr j ↦ inr j
    ]
  ]

  values-entry :
      (h : IocHit) (hits : Hits net)
      → In h (values net hits)
      → (k : Text) × In {A = Text × IocHit} (k, h) hits
  values-entry h [] i = elim i [ ]
  values-entry h ((k, g) ∷ hits) (here e) = (k, here (ap (λ z. (k, z)) e))
  values-entry h ((k, g) ∷ hits) (there i) = let (j, l) = values-entry h hits i in (j, there l)

  append-Shows :
      (h : IocHit) (fs gs : List (Option IocHit))
      → (In (some h) fs → Shows h)
      → (In (some h) gs → Shows h)
      → In (some h) (fs ++ gs)
      → Shows h
  append-Shows h fs gs f g i = elim (append_cases (some h) fs gs i) [ inl l ↦ f l | inr l ↦ g l ]

  found-Shows :
      (ix : IocIndex net) (h : IocHit)
      → IsListed net all ix
      → In (some h) (found net ix evt)
      → Shows h
  unfolding found
  found-Shows ix h (a, b, c, d, n) =
      let ips = ip_hits net ix (tokens net ip evt) in
      let hashes = guarded_hits net hash ix.hashes (tokens net hash evt) in
      let urls = guarded_hits net url ix.urls (tokens net url evt) in
      append-Shows h (ips ++ hashes ++ urls) _
        (append-Shows h (ips ++ hashes) urls
          (append-Shows h ips hashes
            (ip_hits-Shows ix (tokens net ip evt) h (λ s j. j) (a, b, c, d, n))
            (guarded_hits-Shows hash ix.hashes h c))
          (guarded_hits-Shows url ix.urls h d))
        (guarded_hits-Shows domain ix.domains h b)

-- Every hit that match gives shows an indicator that was added, with its type, its source and its
-- severity, and what it says is observed was found in the event: a token of the indicator's type with
-- its key, or an address that the indicator's network holds.
pub match-Shows :
    (net : Addresses) (iocs : List Ioc) (evt : NormalizedEvent) (h : IocHit)
    → In h (match net (add_each net iocs (empty_index net)) evt)
    → Shows net iocs evt h
unfolding match get
match-Shows net iocs evt h i =
    let ix = add_each net iocs (empty_index net) in
    let fs = found net ix evt in
    let (k, l) = values-entry net iocs evt h (add_hits net fs []) i in
    elim (add_hits-In net iocs evt k h fs [] l) [
      | inl m ↦
          found-Shows net iocs evt ix h
            (add_each-IsListed net iocs iocs (empty_index net) (λ ioc n. n) start) m
      | inr m ↦ elim m [ ]
    ]
  where
    start : IsListed net iocs (empty_index net)
    start = (
      (λ k v q. absurd (cc)),
      (λ k v q. absurd (cc)),
      (λ k v q. absurd (cc)),
      (λ k v q. absurd (cc)),
      (λ n v m. elim m [ ]),
    )
