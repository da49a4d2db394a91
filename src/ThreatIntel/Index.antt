-- ===== src/ThreatIntel/Index.antt =====
-- `IocIndex` of `app/threatintel/matcher.py`.
use siem_lite.Prelude.{
  ℕ, ◌+◌, Bool, not, ◌&&◌, ◌||◌, ◌==◌, List, [], ◌∷◌, ◌++◌, Option, none, some, if◌then◌else◌,
  is_empty, keep, length,
}
use siem_lite.Prelude.Dict.{get, set, set_default}
use siem_lite.Text.Chars.{Text, codes, text as by_text, text_eq, lower, join}
use siem_lite.Value.Event.{NormalizedEvent}
use siem_lite.ThreatIntel.{
  ExactType, ip, domain, hash, url, IocType, exact, cidr, Ioc, IocHit, Addresses,
}
use siem_lite.ThreatIntel.Tokens.{ip_tokens, hash_tokens, url_tokens, domain_tokens}
use siem_lite.ThreatIntel.Observables.{observables}

abbrev pub Table : Type 0
Table = List (Text × Ioc)

-- `", ".rstrip(".,);")` of a text: the four characters at its end are cut
abbrev is_end_mark : ℕ → Bool
is_end_mark c = c == b'.' || (c == b',' || (c == b')' || c == b';'))

abbrev cut_end : ℕ → Text → Text
cut_end c [] = if is_end_mark c then [] else c ∷ []
cut_end c (d ∷ s) = c ∷ d ∷ s

unfoldable pub strip_end : Text → Text
strip_end [] = []
strip_end (c ∷ s) = let rest = strip_end s in cut_end c rest

-- The key of an indicator in its table.
abbrev pub key_of : ExactType → Text → Text
key_of ip s = s
key_of domain s = lower s
key_of hash s = lower s
key_of url s = lower s

-- The key that a token is looked up by.
unfoldable pub token_key : ExactType → Text → Text
unfolding lower strip_end
token_key ip s = s
token_key domain s = lower s
token_key hash s = lower s
token_key url s = strip_end (lower s)

module _ (net : Addresses) where
  pub record IocIndex : Type 0 where
    pub ips : Table
    pub cidrs : List (net.Network × Ioc)
    pub domains : Table
    pub hashes : Table
    pub urls : Table

  abbrev pub empty_index : IocIndex
  empty_index = record { ips = []; cidrs = []; domains = []; hashes = []; urls = [] }

  abbrev pub table : ExactType → IocIndex → Table
  table ip ix = ix.ips
  table domain ix = ix.domains
  table hash ix = ix.hashes
  table url ix = ix.urls

  abbrev pub set_table : ExactType → Table → IocIndex → IocIndex
  set_table ip t ix = record ix { ips = t }
  set_table domain t ix = record ix { domains = t }
  set_table hash t ix = record ix { hashes = t }
  set_table url t ix = record ix { urls = t }

  abbrev pub add_network : Option net.Network → Ioc → IocIndex → IocIndex
  add_network none ioc ix = ix
  add_network (some n) ioc ix = record ix { cidrs = ix.cidrs ++ (n, ioc) ∷ [] }

  unfoldable pub add_as : IocType → Ioc → IocIndex → IocIndex
  unfolding set lower
  add_as (exact t) ioc ix = set_table t (set by_text (key_of t ioc.indicator) ioc (table t ix)) ix
  add_as cidr ioc ix = add_network (net.ip_network ioc.indicator) ioc ix

  -- `add`
  abbrev pub add : Ioc → IocIndex → IocIndex
  add ioc ix = add_as ioc.ioc_type ioc ix

  -- The index of a list of indicators, added in order.
  unfoldable pub add_each : List Ioc → IocIndex → IocIndex
  unfolding add_as
  add_each [] ix = ix
  add_each (ioc ∷ iocs) ix = add_each iocs (add ioc ix)

  -- `__len__`
  unfoldable pub size : IocIndex → ℕ
  size ix = length ix.ips + length ix.cidrs + length ix.domains + length ix.hashes + length ix.urls

  abbrev pub hit_of : IocType → Ioc → Text → IocHit
  hit_of t ioc observed = record {
    indicator = ioc.indicator;
    ioc_type = t;
    source = ioc.source;
    severity = ioc.severity;
    observed = observed;
  }

  abbrev pub exact_hit : ExactType → Option Ioc → Text → Option IocHit
  exact_hit t none observed = none
  exact_hit t (some ioc) observed = some (hit_of (exact t) ioc observed)

  -- The first network that holds an address.
  unfoldable pub network_hit : net.Address → List (net.Network × Ioc) → Text → Option IocHit
  network_hit a [] observed = none
  network_hit a ((n, ioc) ∷ cidrs) observed =
      if net.holds n a then some (hit_of cidr ioc observed) else network_hit a cidrs observed

  abbrev pub networks_hit : Option net.Address → List (net.Network × Ioc) → Text → Option IocHit
  networks_hit none cidrs observed = none
  networks_hit (some a) cidrs observed = network_hit a cidrs observed

  abbrev pub or_network : Option Ioc → IocIndex → Text → Option IocHit
  or_network (some ioc) ix s = some (hit_of (exact ip) ioc s)
  or_network none ix s = networks_hit (net.ip_address s) ix.cidrs s

  -- `_ip_hit`, of what is looked up, which is what is observed
  unfoldable pub ip_hit : IocIndex → Text → Option IocHit
  unfolding get network_hit
  ip_hit ix s = or_network (get by_text s ix.ips) ix s

  abbrev pub Hits : Type 0
  Hits = List (Text × IocHit)

  -- `add` of `match`
  abbrev pub add_hit : Option IocHit → Hits → Hits
  add_hit none hits = hits
  add_hit (some h) hits = set_default by_text h.indicator h hits

  unfoldable pub add_hits : List (Option IocHit) → Hits → Hits
  unfolding set_default get
  add_hits [] hits = hits
  add_hits (h ∷ hs) hits = add_hits hs (add_hit h hits)

  unfoldable pub ip_hits : IocIndex → List Text → List (Option IocHit)
  unfolding ip_hit
  ip_hits ix [] = []
  ip_hits ix (s ∷ ss) = ip_hit ix s ∷ ip_hits ix ss

  unfoldable pub token_hits : ExactType → Table → List Text → List (Option IocHit)
  unfolding get token_key
  token_hits t entries [] = []
  token_hits t entries (s ∷ ss) =
      exact_hit t (get by_text (token_key t s) entries) s ∷ token_hits t entries ss

  -- `if self.hashes: for h in set(tokens)` and the same of the URLs and the domains
  abbrev pub guarded_hits : ExactType → Table → List Text → List (Option IocHit)
  guarded_hits t [] tokens = []
  guarded_hits t (e ∷ entries) tokens = token_hits t (e ∷ entries) tokens

  is_candidate : Text → Bool
  unfolding text_eq
  is_candidate s = not (is_empty s) && not (text_eq s (codes "None"))

  abbrev shown : Option Text → Text
  shown none = codes "None"
  shown (some s) = s

  abbrev pub values : Hits → List IocHit
  values [] = []
  values ((k, h) ∷ hits) = h ∷ values hits

  abbrev pub blob : NormalizedEvent → Text
  blob e = join (codes " ") (observables e)

  unfoldable pub ip_candidates : NormalizedEvent → List Text
  unfolding is_candidate ip_tokens join observables
  ip_candidates e = keep is_candidate (shown e.src_ip ∷ shown e.dst_ip ∷ []) ++ ip_tokens (blob e)

  abbrev pub tokens : ExactType → NormalizedEvent → List Text
  tokens ip e = ip_candidates e
  tokens domain e = domain_tokens (blob e)
  tokens hash e = hash_tokens (blob e)
  tokens url e = url_tokens (blob e)

  -- What `match` hands to `add`, in order.
  unfoldable pub found : IocIndex → NormalizedEvent → List (Option IocHit)
  unfolding ip_hits token_hits ip_candidates hash_tokens url_tokens domain_tokens join observables
  found ix e =
      ip_hits ix (tokens ip e)
      ++ guarded_hits hash ix.hashes (tokens hash e)
      ++ guarded_hits url ix.urls (tokens url e)
      ++ guarded_hits domain ix.domains (tokens domain e)

  -- `match`
  unfoldable pub match : IocIndex → NormalizedEvent → List IocHit
  unfolding add_hits found
  match ix e = values (add_hits (found ix e) [])
