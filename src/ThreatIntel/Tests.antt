-- ===== src/ThreatIntel/Tests.antt =====
-- The index of `app/threatintel/matcher.py` on samples.
use siem_lite.Prelude.{◌≡◌, refl, sym, subst, List, [], ◌∷◌, some, In, here, there}
use siem_lite.Samples.{failed_logon}
use siem_lite.Text.Chars.{Text, codes, text_eq, join}
use siem_lite.ThreatIntel.{domain, url, IocType, exact, cidr, Ioc, IocHit, Addresses}
use siem_lite.Value.Event.{NormalizedEvent}
use siem_lite.ThreatIntel.Observables.{observables}
use siem_lite.ThreatIntel.Tokens.{ip_tokens, hash_tokens, url_tokens, domain_tokens}
use siem_lite.ThreatIntel.Index.{key_of, token_key, empty_index, add_each, match, tokens}
use siem_lite.ThreatIntel.Listed.{Shows, match-Shows}
use siem_lite.ThreatIntel.Found.{match-finds}

-- A network is a text that holds itself.
abbrev addresses : Addresses
addresses = record {
  Network = Text;
  Address = Text;
  ip_network = λ s. some s;
  ip_address = λ s. some s;
  holds = text_eq;
}

-- `alice` opens a page.
abbrev visit : NormalizedEvent
visit = record failed_logon {
  message = some (codes "GET HTTP://evil.example/a) from EVIL.example, 8.8.8.8.");
}

abbrev ioc : IocType → Text → Ioc
ioc t indicator = record {
  indicator = indicator;
  ioc_type = t;
  source = codes "manual";
  severity = codes "high";
  description = [];
}

abbrev feed : List Ioc
feed =
    ioc (exact domain) (codes "evil.example")
    ∷ ioc cidr (codes "10.0.0.7")
    ∷ ioc (exact url) (codes "http://evil.example/a)")
    ∷ []

ip_tokens_example :
    ip_tokens (codes "10.0.0.7:80 1.2.3.4.5 1234.1.1.1 8.8.8.8x")
    ≡ codes "10.0.0.7" ∷ codes "1.2.3.4" ∷ []
unfolding ip_tokens
ip_tokens_example = refl

url_tokens_example :
    url_tokens (codes "x HTTPS://a.b/c?d='e http:// http://f")
    ≡ codes "HTTPS://a.b/c?d=" ∷ codes "http://f" ∷ []
unfolding url_tokens
url_tokens_example = refl

domain_tokens_example :
    domain_tokens (codes "a.evil.com, -b.co-uk c.d1 e..f.io g_h.ij.com")
    ≡ codes "a.evil.com" ∷ codes "b.co" ∷ codes "f.io" ∷ codes "ij.com" ∷ []
unfolding domain_tokens
domain_tokens_example = refl

hash_tokens_example :
    hash_tokens (codes "md5 D41d8cd98f00b204e9800998ecf8427e, D41d8cd98f00b204e9800998ecf8427ex")
    ≡ codes "D41d8cd98f00b204e9800998ecf8427e" ∷ []
unfolding hash_tokens
hash_tokens_example = refl

abbrev domain_hit : IocHit
domain_hit = record {
  indicator = codes "evil.example";
  ioc_type = exact domain;
  source = codes "manual";
  severity = codes "high";
  observed = codes "evil.example";
}

abbrev network_hit : IocHit
network_hit = record {
  indicator = codes "10.0.0.7";
  ioc_type = cidr;
  source = codes "manual";
  severity = codes "high";
  observed = codes "10.0.0.7";
}

visit_domains : tokens addresses domain visit ≡ codes "evil.example" ∷ codes "EVIL.example" ∷ []
unfolding domain_tokens join observables
visit_domains = refl

shown_domain : In (codes "EVIL.example") (tokens addresses domain visit)
shown_domain = subst (λ ts. In (codes "EVIL.example") ts) (sym visit_domains) (there (here refl))

-- The network and the domain are found. The URL is not: its key ends with a bracket, which is cut
-- from the token.
url_missed :
    match addresses (add_each addresses feed (empty_index addresses)) visit
    ≡ network_hit ∷ domain_hit ∷ []
unfolding match add_each text_eq
url_missed = refl

match-finds_example :
    (h : IocHit) × In h (match addresses (add_each addresses feed (empty_index addresses)) visit)
    × (key_of domain h.indicator ≡ key_of domain (codes "evil.example"))
unfolding token_key
match-finds_example =
    match-finds addresses feed visit domain (ioc (exact domain) (codes "evil.example"))
      (codes "EVIL.example") (here refl) refl shown_domain refl

domain_hit-In :
    In domain_hit (match addresses (add_each addresses feed (empty_index addresses)) visit)
domain_hit-In = subst (λ hs. In domain_hit hs) (sym url_missed) (there (here refl))

match-Shows_example : Shows addresses feed visit domain_hit
match-Shows_example = match-Shows addresses feed visit domain_hit domain_hit-In
