-- ===== src/IngestActions/Scrub.antt =====
-- `hash_value`, `pseudo_ip`, `literal_scrubber` and `_token_pattern` of `app/ingest_actions.py`. The
-- hexadecimal digest of SHA-256 is a parameter; letters and digits are the ASCII ones.
use siem_lite.Prelude.{
  ℕ, zero, suc, ◌+◌, ◌*◌, ◌-◌, ◌/◌, ◌%◌, ◌^◌, ◌≤◌, ◌<◌, ◌==◌, leb, ltb, ◌≡◌, refl, Bool, true,
  false, not, ◌&&◌, ◌||◌, List, [], ◌∷◌, ◌++◌, if◌then◌else◌, length, take, drop, arith,
}
use siem_lite.Text.Chars.{Text, codes, text_eq}
use siem_lite.Text.Number.{is_digit, show_number}
use siem_lite.Text.Search.{starts_with}

abbrev hex_value : ℕ → ℕ
hex_value c = if is_digit c then c - b'0' else c - b'a' + 10

-- `int(s, 16)`
read_hex : ℕ → Text → ℕ
read_hex n [] = n
read_hex n (c ∷ s) = read_hex (n * 16 + hex_value c) s

-- `_PSEUDO_NET_BASE` and the number of its addresses
abbrev pub pseudo_base : ℕ
pseudo_base = 1681915904

abbrev pub pseudo_count : ℕ
pseudo_count = 2 ^ 22

-- `str(ipaddress.IPv4Address(n))`
unfoldable pub show_address : ℕ → Text
unfolding show_number
show_address n =
    show_number (n / 16777216)
    ++ codes "."
    ++ show_number (n / 65536 % 256)
    ++ codes "."
    ++ show_number (n / 256 % 256)
    ++ codes "."
    ++ show_number (n % 256)

module _ (sha256 : Text → Text) where
  -- `hash_value` with the length 16
  abbrev pub hash_value : Text → Text → Text
  hash_value value salt = take 16 (sha256 (salt ++ value))

  unfoldable pub hash_number : Text → Text → ℕ
  unfolding read_hex
  hash_number value salt = read_hex 0 (hash_value value salt)

  unfoldable pub pseudo_number : Text → Text → ℕ
  unfolding hash_number
  pseudo_number value salt = pseudo_base + hash_number value salt % pseudo_count

  -- `pseudo_ip`
  unfoldable pub pseudo_ip : Text → Text → Text
  unfolding pseudo_number show_address
  pseudo_ip value salt = show_address (pseudo_number value salt)

-- `_WORD_CHARS`
abbrev pub is_word_char : ℕ → Bool
is_word_char c =
    is_digit c || ((leb b'A' c && leb c b'Z') || ((leb b'a' c && leb c b'z') || c == b'_'))

abbrev pub starts_word : Text → Bool
starts_word [] = false
starts_word (c ∷ s) = is_word_char c

abbrev pub last_or : ℕ → Text → ℕ
last_or c [] = c
last_or c (d ∷ s) = last_or d s

abbrev pub ends_word : Text → Bool
ends_word [] = false
ends_word (c ∷ s) = is_word_char (last_or c s)

-- Whether the text stands here, as a whole token if that is asked for; `prev` says that a word
-- character comes before.
abbrev pub token_here : Bool → Bool → Text → Text → Bool
token_here whole prev t s =
    starts_with t s
    && (not whole
        || (not (starts_word t && prev) && not (ends_word t && starts_word (drop (length t) s))))

-- `s.replace(t, r)`, or `token.sub` by the text `r`, for a text `t` of one character at least. A round
-- takes a character at least.
unfoldable pub substitute : ℕ → Bool → Bool → Text → Text → Text → Text
unfolding starts_with
substitute zero whole prev t r s = s
substitute (suc n) whole prev t r [] = []
substitute (suc n) whole prev t r (c ∷ s) = elim (token_here whole prev t (c ∷ s)) [
  | true ↦ r ++ substitute n whole (ends_word t) t r (drop (length t) (c ∷ s))
  | false ↦ c ∷ substitute n whole (is_word_char c) t r s
]

-- `_MIN_SUBSTRING_LEN`
abbrev pub min_substring_len : ℕ
min_substring_len = 8

-- One pair of `literal_scrubber`.
unfoldable pub scrub_pair : Text → Text → Text → Text
unfolding text_eq substitute
scrub_pair [] r s = s
scrub_pair (c ∷ t) r s =
    if text_eq s (c ∷ t)
    then r
    else substitute (length s) (ltb (length (c ∷ t)) min_substring_len) false (c ∷ t) r s

-- `literal_scrubber`
unfoldable pub literal_scrubber : List (Text × Text) → Text → Text
unfolding scrub_pair
literal_scrubber [] s = s
literal_scrubber ((t, r) ∷ pairs) s = literal_scrubber pairs (scrub_pair t r s)

-- The four octets of an address, in the shared address space 100.64.0.0/10.
abbrev pub IsSharedAddress : Text → Type 0
IsSharedAddress s =
    (a : ℕ) × (b : ℕ) × (c : ℕ) × (64 ≤ a)
    × (a < 128)
    × (b < 256)
    × (c < 256)
    × (s
        ≡ show_number 100
          ++ codes "."
          ++ show_number a
          ++ codes "."
          ++ show_number b
          ++ codes "."
          ++ show_number c)

show_address-IsSharedAddress :
    (n : ℕ) → pseudo_base ≤ n → n < pseudo_base + pseudo_count → IsSharedAddress (show_address n)
unfolding show_address
show_address-IsSharedAddress n lo hi =
    let first : n / 16777216 ≡ 100 = omega arith in
    (
      n / 65536 % 256,
      n / 256 % 256,
      n % 256,
      omega arith,
      omega arith,
      omega arith,
      omega arith,
      rw first refl,
    )

-- A pseudonym of an address is written as four octets of an address in 100.64.0.0/10, whatever the
-- hash.
pub pseudo_ip-IsSharedAddress :
    (sha256 : Text → Text) (value salt : Text) → IsSharedAddress (pseudo_ip sha256 value salt)
unfolding pseudo_ip pseudo_number
pseudo_ip-IsSharedAddress sha256 value salt =
    show_address-IsSharedAddress (pseudo_number sha256 value salt) (omega arith) (omega arith)
