-- ===== src/ThreatIntel/Keys.antt =====
-- The keys in the tables of `IocIndex` in `app/threatintel/matcher.py`, after indicators are added.
use siem_lite.Prelude.{
  ◌≡◌, refl, ◌∙◌, List, [], ◌∷◌, Option, none, some, In, here, there, if_true, if_false, Bool-cases,
  inl, inr,
}
use siem_lite.Prelude.Dict.{get, set, get-set, same_refl}
use siem_lite.Text.Chars.{Text, text as by_text, text_eq, text_eq_iff}
use siem_lite.ThreatIntel.{ExactType, ip, domain, hash, url, IocType, exact, cidr, Ioc, Addresses}
use siem_lite.ThreatIntel.Index.{Table, key_of, IocIndex, table, add, add_as, add_network, add_each}

-- A table has an indicator with this key, under it.
abbrev pub HasKey : ExactType → Text → Table → Type 0
HasKey t k entries = (ioc : Ioc) × (get by_text k entries ≡ some ioc) × (key_of t ioc.indicator ≡ k)

set-HasKey :
    (t : ExactType) (k : Text) (ioc : Ioc) (entries : Table)
    → HasKey t k entries
    → HasKey t k (set by_text (key_of t ioc.indicator) ioc entries)
set-HasKey t k ioc entries (old, q, r) =
    let g = get-set by_text (key_of t ioc.indicator) k ioc entries in
    elim (Bool-cases (text_eq (key_of t ioc.indicator) k)) [
      | inl s ↦ (ioc, g ∙ if_true (text_eq (key_of t ioc.indicator) k) _ _ s, (text_eq_iff _ k).0 s)
      | inr s ↦ (old, g ∙ if_false (text_eq (key_of t ioc.indicator) k) _ _ s ∙ q, r)
    ]

new-HasKey :
    (t : ExactType) (ioc : Ioc) (entries : Table)
    → HasKey t (key_of t ioc.indicator) (set by_text (key_of t ioc.indicator) ioc entries)
new-HasKey t ioc entries =
    let k = key_of t ioc.indicator in
    (ioc, get-set by_text k k ioc entries ∙ if_true (text_eq k k) _ _ (same_refl by_text k), refl)

module _ (net : Addresses) where
  network-HasKey :
      (t : ExactType) (k : Text) (o : Option net.Network) (ioc : Ioc) (ix : IocIndex net)
      → HasKey t k (table net t ix)
      → HasKey t k (table net t (add_network net o ioc ix))
  network-HasKey ip k none ioc ix h = h
  network-HasKey ip k (some n) ioc ix h = h
  network-HasKey domain k none ioc ix h = h
  network-HasKey domain k (some n) ioc ix h = h
  network-HasKey hash k none ioc ix h = h
  network-HasKey hash k (some n) ioc ix h = h
  network-HasKey url k none ioc ix h = h
  network-HasKey url k (some n) ioc ix h = h

  add_as-HasKey :
      (t : ExactType) (k : Text) (u : IocType) (ioc : Ioc) (ix : IocIndex net)
      → HasKey t k (table net t ix)
      → HasKey t k (table net t (add_as net u ioc ix))
  unfolding add_as
  add_as-HasKey ip k (exact ip) ioc ix h = set-HasKey ip k ioc (table net ip ix) h
  add_as-HasKey ip k (exact domain) ioc ix h = h
  add_as-HasKey ip k (exact hash) ioc ix h = h
  add_as-HasKey ip k (exact url) ioc ix h = h
  add_as-HasKey domain k (exact ip) ioc ix h = h
  add_as-HasKey domain k (exact domain) ioc ix h = set-HasKey domain k ioc (table net domain ix) h
  add_as-HasKey domain k (exact hash) ioc ix h = h
  add_as-HasKey domain k (exact url) ioc ix h = h
  add_as-HasKey hash k (exact ip) ioc ix h = h
  add_as-HasKey hash k (exact domain) ioc ix h = h
  add_as-HasKey hash k (exact hash) ioc ix h = set-HasKey hash k ioc (table net hash ix) h
  add_as-HasKey hash k (exact url) ioc ix h = h
  add_as-HasKey url k (exact ip) ioc ix h = h
  add_as-HasKey url k (exact domain) ioc ix h = h
  add_as-HasKey url k (exact hash) ioc ix h = h
  add_as-HasKey url k (exact url) ioc ix h = set-HasKey url k ioc (table net url ix) h
  add_as-HasKey ip k cidr ioc ix h = network-HasKey ip k (net.ip_network ioc.indicator) ioc ix h
  add_as-HasKey domain k cidr ioc ix h =
      network-HasKey domain k (net.ip_network ioc.indicator) ioc ix h
  add_as-HasKey hash k cidr ioc ix h = network-HasKey hash k (net.ip_network ioc.indicator) ioc ix h
  add_as-HasKey url k cidr ioc ix h = network-HasKey url k (net.ip_network ioc.indicator) ioc ix h

  add_as-new :
      (t : ExactType) (ioc : Ioc) (ix : IocIndex net)
      → HasKey t (key_of t ioc.indicator) (table net t (add_as net (exact t) ioc ix))
  unfolding add_as
  add_as-new ip ioc ix = new-HasKey ip ioc (table net ip ix)
  add_as-new domain ioc ix = new-HasKey domain ioc (table net domain ix)
  add_as-new hash ioc ix = new-HasKey hash ioc (table net hash ix)
  add_as-new url ioc ix = new-HasKey url ioc (table net url ix)

  typed-new :
      (t : ExactType) (u : IocType) (ioc : Ioc) (ix : IocIndex net)
      → u ≡ exact t
      → HasKey t (key_of t ioc.indicator) (table net t (add_as net u ioc ix))
  typed-new t u ioc ix q = rw q (add_as-new t ioc ix)

  add_each-HasKey :
      (t : ExactType) (k : Text) (iocs : List Ioc) (ix : IocIndex net)
      → HasKey t k (table net t ix)
      → HasKey t k (table net t (add_each net iocs ix))
  unfolding add_each
  add_each-HasKey t k [] ix h = h
  add_each-HasKey t k (ioc ∷ iocs) ix h =
      add_each-HasKey t k iocs _ (add_as-HasKey t k ioc.ioc_type ioc ix h)

  -- An added indicator has its key in its table from then on.
  pub add_each-added :
      (t : ExactType) (ioc : Ioc) (iocs : List Ioc) (ix : IocIndex net)
      → ioc.ioc_type ≡ exact t
      → In ioc iocs
      → HasKey t (key_of t ioc.indicator) (table net t (add_each net iocs ix))
  unfolding add_each
  add_each-added t ioc [] ix q i = elim i [ ]
  add_each-added t ioc (first ∷ iocs) ix q (here e) =
      add_each-HasKey t (key_of t ioc.indicator) iocs (add net first ix)
        (rw e (typed-new t ioc.ioc_type ioc ix q))
  add_each-added t ioc (first ∷ iocs) ix q (there i) = add_each-added t ioc iocs _ q i
