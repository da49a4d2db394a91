-- ===== src/ThreatIntel/Tables.antt =====
-- What the tables of `IocIndex` in `app/threatintel/matcher.py` hold: indicators that were added, under
-- their keys.
use siem_lite.Prelude.{
  ◌≡◌, refl, ap, ◌∙◌, sym, List, [], ◌∷◌, ◌++◌, none, some, In, here, there, append_cases, if_true,
  if_false, Bool-cases, inl, inr, some_eq,
}
use siem_lite.Prelude.Dict.{get, set, get-set}
use siem_lite.Text.Chars.{Text, text as by_text, text_eq, text_eq_iff}
use siem_lite.ThreatIntel.{ExactType, ip, domain, hash, url, IocType, exact, cidr, Ioc, Addresses}
use siem_lite.ThreatIntel.Index.{Table, key_of, IocIndex, add, add_as, add_network, add_each}

module _ (net : Addresses) (all : List Ioc) where
  -- The table of a type holds listed indicators of that type.
  abbrev pub HoldsListed : ExactType → Table → Type 0
  HoldsListed t entries =
      (k : Text) (ioc : Ioc)
      → get by_text k entries ≡ some ioc
      → In ioc all × (ioc.ioc_type ≡ exact t) × (key_of t ioc.indicator ≡ k)

  abbrev pub NetworksListed : List (net.Network × Ioc) → Type 0
  NetworksListed cidrs =
      (n : net.Network) (ioc : Ioc)
      → In {A = net.Network × Ioc} (n, ioc) cidrs
      → In ioc all × (ioc.ioc_type ≡ cidr) × (net.ip_network ioc.indicator ≡ some n)

  abbrev pub IsListed : IocIndex net → Type 0
  IsListed ix =
      HoldsListed ip ix.ips
      × HoldsListed domain ix.domains
      × HoldsListed hash ix.hashes
      × HoldsListed url ix.urls
      × NetworksListed ix.cidrs

  set-HoldsListed :
      (t : ExactType) (ioc : Ioc) (entries : Table)
      → In ioc all
      → ioc.ioc_type ≡ exact t
      → HoldsListed t entries
      → HoldsListed t (set by_text (key_of t ioc.indicator) ioc entries)
  set-HoldsListed t ioc entries i q h k v g =
      let key = key_of t ioc.indicator in
      let s = sym (get-set by_text key k ioc entries) ∙ g in
      elim (Bool-cases (text_eq key k)) [
        | inl b ↦
            let e : ioc ≡ v = some_eq (sym (if_true (text_eq key k) _ _ b) ∙ s) in
            rw (sym e) (i, q, (text_eq_iff key k).0 b)
        | inr b ↦ h k v (sym (if_false (text_eq key k) _ _ b) ∙ s)
      ]

  append-NetworksListed :
      (n : net.Network) (ioc : Ioc) (cidrs : List (net.Network × Ioc))
      → In ioc all
      → ioc.ioc_type ≡ cidr
      → net.ip_network ioc.indicator ≡ some n
      → NetworksListed cidrs
      → NetworksListed (cidrs ++ (n, ioc) ∷ [])
  append-NetworksListed n ioc cidrs i q p h m v j = elim (append_cases (m, v) cidrs _ j) [
    | inl l ↦ h m v l
    | inr l ↦ last_entry l
  ]
    where
      last_entry :
          In {A = net.Network × Ioc} (m, v) ((n, ioc) ∷ [])
          → In v all × (v.ioc_type ≡ cidr) × (net.ip_network v.indicator ≡ some m)
      last_entry (here e) =
          let r : ioc ≡ v = ap (λ z. z.1) e in
          let k : n ≡ m = ap (λ z. z.0) e in rw (sym r) (i, q, p ∙ ap some k)
      last_entry (there l) = elim l [ ]

  add_as-IsListed :
      (u : IocType) (ioc : Ioc) (ix : IocIndex net)
      → In ioc all
      → ioc.ioc_type ≡ u
      → IsListed ix
      → IsListed (add_as net u ioc ix)
  unfolding add_as
  add_as-IsListed (exact ip) ioc ix i q (a, b, c, d, e) =
      (set-HoldsListed ip ioc ix.ips i q a, b, c, d, e)
  add_as-IsListed (exact domain) ioc ix i q (a, b, c, d, e) =
      (a, set-HoldsListed domain ioc ix.domains i q b, c, d, e)
  add_as-IsListed (exact hash) ioc ix i q (a, b, c, d, e) =
      (a, b, set-HoldsListed hash ioc ix.hashes i q c, d, e)
  add_as-IsListed (exact url) ioc ix i q (a, b, c, d, e) =
      (a, b, c, set-HoldsListed url ioc ix.urls i q d, e)
  add_as-IsListed cidr ioc ix i q (a, b, c, d, e) =
      (elim (net.ip_network ioc.indicator)
          as (λ o. net.ip_network ioc.indicator ≡ o → IsListed (add_network net o ioc ix)) [
            | none ↦ λ p. (a, b, c, d, e)
            | some n ↦ λ p. (a, b, c, d, append-NetworksListed n ioc ix.cidrs i q p e)
          ])
        refl

  pub add_each-IsListed :
      (iocs : List Ioc) (ix : IocIndex net)
      → ((ioc : Ioc) → In ioc iocs → In ioc all)
      → IsListed ix
      → IsListed (add_each net iocs ix)
  unfolding add_each
  add_each-IsListed [] ix sub h = h
  add_each-IsListed (ioc ∷ iocs) ix sub h =
      add_each-IsListed iocs (add net ioc ix) (λ x i. sub x (there i))
        (add_as-IsListed ioc.ioc_type ioc ix (sub ioc (here refl)) refl h)
