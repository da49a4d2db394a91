-- ===== src/ThreatIntel/Found.antt =====
-- What `IocIndex` of `app/threatintel/matcher.py` finds in an event.
use siem_lite.Prelude.{
  ◌≡◌, refl, ap, ◌∙◌, sym, List, [], ◌∷◌, ◌++◌, Option, none, some, In, here, there, In-append_left,
  In-append_right, some_eq,
}
use siem_lite.Prelude.Dict.{
  get, get-In, get-append_left, get-append_right, set_default_new, set_default_old,
}
use siem_lite.Text.Chars.{Text, text as by_text}
use siem_lite.Value.Event.{NormalizedEvent}
use siem_lite.ThreatIntel.{ExactType, ip, domain, hash, url, exact, Ioc, IocHit, Addresses}
use siem_lite.ThreatIntel.Index.{
  Table, key_of, token_key, IocIndex, empty_index, table, add_each, hit_of, or_network, ip_hit,
  Hits, add_hit, add_hits, ip_hits, token_hits, guarded_hits, tokens, found, values, match,
}
use siem_lite.ThreatIntel.Keys.{add_each-added}

module _ (net : Addresses) where
  token_hits-In :
      (t : ExactType) (entries : Table) (s : Text) (ss : List Text) (ioc : Ioc)
      → get by_text (token_key t s) entries ≡ some ioc
      → In s ss
      → In (some (hit_of net (exact t) ioc s)) (token_hits net t entries ss)
  unfolding token_hits
  token_hits-In t entries s [] ioc q i = elim i [ ]
  token_hits-In t entries s (x ∷ ss) ioc q (here e) = here (rw (e, q) refl)
  token_hits-In t entries s (x ∷ ss) ioc q (there i) = there (token_hits-In t entries s ss ioc q i)

  guarded_hits-In :
      (t : ExactType) (entries : Table) (s : Text) (ss : List Text) (ioc : Ioc)
      → get by_text (token_key t s) entries ≡ some ioc
      → In s ss
      → In (some (hit_of net (exact t) ioc s)) (guarded_hits net t entries ss)
  unfolding get
  guarded_hits-In t [] s ss ioc q i = absurd (cc)
  guarded_hits-In t (x ∷ entries) s ss ioc q i = token_hits-In t (x ∷ entries) s ss ioc q i

  ip_hits-In :
      (ix : IocIndex net) (s : Text) (ss : List Text) (ioc : Ioc)
      → get by_text s ix.ips ≡ some ioc
      → In s ss
      → In (some (hit_of net (exact ip) ioc s)) (ip_hits net ix ss)
  unfolding ip_hits ip_hit
  ip_hits-In ix s [] ioc q i = elim i [ ]
  ip_hits-In ix s (x ∷ ss) ioc q (here e) = here (rw e (ap (λ o. or_network net o ix s) q))
  ip_hits-In ix s (x ∷ ss) ioc q (there i) = there (ip_hits-In ix s ss ioc q i)

  -- Each hit is kept under its indicator.
  abbrev IsKeyed : Hits net → Type 0
  IsKeyed hits = (k : Text) (h : IocHit) → In {A = Text × IocHit} (k, h) hits → k ≡ h.indicator

  -- Some hit has this indicator.
  abbrev HasHit : Text → Hits net → Type 0
  HasHit k hits = (h : IocHit) × (get by_text k hits ≡ some h)

  append-IsKeyed :
      (g : IocHit) (hits : Hits net) → IsKeyed hits → IsKeyed (hits ++ (g.indicator, g) ∷ [])
  append-IsKeyed g [] v k h (here e) = sym (ap (λ z. z.0) e) ∙ ap (λ z. z.1.indicator) e
  append-IsKeyed g [] v k h (there i) = elim i [ ]
  append-IsKeyed g (x ∷ hits) v k h (here e) = v k h (here e)
  append-IsKeyed g (x ∷ hits) v k h (there i) =
      append-IsKeyed g hits (λ k' h' j. v k' h' (there j)) k h i

  -- What `add` leaves, by whether the indicator has a hit.
  set_hit :
      (g : IocHit) (hits : Hits net) (o : Option IocHit)
      → get by_text g.indicator hits ≡ o
      → IsKeyed hits
      → IsKeyed (add_hit net (some g) hits)
        × HasHit g.indicator (add_hit net (some g) hits)
        × ((k : Text) → HasHit k hits → HasHit k (add_hit net (some g) hits))
  set_hit g hits none q v = rw (set_default_new by_text g.indicator g hits q) (
    append-IsKeyed g hits v,
    (g, get-append_right by_text g.indicator g hits q),
    (λ k (h, r). (h, get-append_left by_text k h hits ((g.indicator, g) ∷ []) r)),
  )
  set_hit g hits (some old) q v =
      rw (set_default_old by_text g.indicator g hits q) (v, (old, q), (λ k h. h))

  add_hits-HasHit :
      (k : Text) (fs : List (Option IocHit)) (hits : Hits net)
      → IsKeyed hits
      → HasHit k hits
      → HasHit k (add_hits net fs hits)
  unfolding add_hits
  add_hits-HasHit k [] hits v h = h
  add_hits-HasHit k (none ∷ fs) hits v h = add_hits-HasHit k fs hits v h
  add_hits-HasHit k (some g ∷ fs) hits v h =
      let (w, _, keep) = set_hit g hits (get by_text g.indicator hits) refl v in
      add_hits-HasHit k fs (add_hit net (some g) hits) w (keep k h)

  add_hits-IsKeyed :
      (fs : List (Option IocHit)) (hits : Hits net) → IsKeyed hits → IsKeyed (add_hits net fs hits)
  unfolding add_hits
  add_hits-IsKeyed [] hits v = v
  add_hits-IsKeyed (none ∷ fs) hits v = add_hits-IsKeyed fs hits v
  add_hits-IsKeyed (some g ∷ fs) hits v =
      add_hits-IsKeyed fs (add_hit net (some g) hits)
        (set_hit g hits (get by_text g.indicator hits) refl v).0

  add_hits-added :
      (g : IocHit) (fs : List (Option IocHit)) (hits : Hits net)
      → IsKeyed hits
      → In (some g) fs
      → HasHit g.indicator (add_hits net fs hits)
  unfolding add_hits
  add_hits-added g [] hits v i = elim i [ ]
  add_hits-added g (none ∷ fs) hits v (here e) = absurd (cc)
  add_hits-added g (none ∷ fs) hits v (there i) = add_hits-added g fs hits v i
  add_hits-added g (some f ∷ fs) hits v (here e) =
      let (w, new, _) = set_hit f hits (get by_text f.indicator hits) refl v in
      let q : f ≡ g = some_eq e in
      add_hits-HasHit g.indicator fs (add_hit net (some f) hits) w (rw (sym q) new)
  add_hits-added g (some f ∷ fs) hits v (there i) =
      add_hits-added g fs (add_hit net (some f) hits)
        (set_hit f hits (get by_text f.indicator hits) refl v).0 i

  values-In :
      (k : Text) (h : IocHit) (hits : Hits net)
      → In {A = Text × IocHit} (k, h) hits
      → In h (values net hits)
  values-In k h [] i = elim i [ ]
  values-In k h ((j, g) ∷ hits) (here e) = here (ap (λ z. z.1) e)
  values-In k h ((j, g) ∷ hits) (there i) = there (values-In k h hits i)

  -- A token with the key of a table is among what match adds.
  found-In :
      (t : ExactType) (ix : IocIndex net) (e : NormalizedEvent) (s : Text) (ioc : Ioc)
      → get by_text (token_key t s) (table net t ix) ≡ some ioc
      → In s (tokens net t e)
      → In (some (hit_of net (exact t) ioc s)) (found net ix e)
  unfolding found token_key
  found-In ip ix e s ioc q i =
      In-append_left _ _ (In-append_left _ _ (In-append_left _ _ (ip_hits-In ix s _ ioc q i)))
  found-In hash ix e s ioc q i =
      In-append_left _ _
        (In-append_left _ _ (In-append_right _ _ _ (guarded_hits-In hash ix.hashes s _ ioc q i)))
  found-In url ix e s ioc q i =
      In-append_left _ _ (In-append_right _ _ _ (guarded_hits-In url ix.urls s _ ioc q i))
  found-In domain ix e s ioc q i =
      In-append_right _ _ _ (guarded_hits-In domain ix.domains s _ ioc q i)

  -- A token that findall gives of an event, with the key of an added indicator of an address, a
  -- domain, a hash or a URL, gives a hit of an indicator with that key, whatever else is added before
  -- or after. The key of a URL token is cut at its end; networks are not among these.
  pub match-finds :
      (iocs : List Ioc) (e : NormalizedEvent) (t : ExactType) (ioc : Ioc) (s : Text)
      → In ioc iocs
      → ioc.ioc_type ≡ exact t
      → In s (tokens net t e)
      → token_key t s ≡ key_of t ioc.indicator
      → (h : IocHit) × In h (match net (add_each net iocs (empty_index net)) e)
        × (key_of t h.indicator ≡ key_of t ioc.indicator)
  unfolding match
  match-finds iocs e t ioc s i q j r =
      let ix = add_each net iocs (empty_index net) in
      let (kept, g, same) = add_each-added net t ioc iocs (empty_index net) q i in
      let l = found-In t ix e s kept (ap (λ k. get by_text k (table net t ix)) r ∙ g) j in
      let v : IsKeyed [] = λ k h n. elim n [ ] in
      let (h, at) = add_hits-added (hit_of net (exact t) kept s) (found net ix e) [] v l in
      let hits = add_hits net (found net ix e) [] in
      let m = get-In by_text kept.indicator h hits at in
      let label = add_hits-IsKeyed (found net ix e) [] v kept.indicator h m in
      (h, values-In kept.indicator h hits m, ap (key_of t) (sym label) ∙ same)
