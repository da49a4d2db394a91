-- ===== src/Correlation/Identity.antt =====
-- Which alerts of `app/detection/correlation.py` share a dedup hash.
use siem_lite.Prelude.{ℕ, ◌≡◌, refl, sym, ◌∙◌, ◌++◌, append_assoc, append-cancel}
use siem_lite.Text.Chars.{codes}
use siem_lite.Text.Number.{
  is_digit, show_number, show_number-injective, last_mark, all_of-show_number,
}
use siem_lite.Correlation.{CorrelationRule, GroupValues, dedup_text, identity}

-- For one rule the hashed texts of two alerts are equal only if their groups' identity texts and
-- their window indexes are: a burst that goes on into the next window alerts again.
pub dedup_text-bucket :
    (rule : CorrelationRule) (g h : GroupValues) (b c : ℕ)
    → dedup_text rule g b ≡ dedup_text rule h c
    → (identity g ≡ identity h) × (b ≡ c)
dedup_text-bucket rule g h b c e =
    let front = codes "corr|" ++ rule.id ++ codes "|" in
    let marked =
      λ (x : GroupValues) (n : ℕ). append_assoc (front ++ identity x) (codes "|") (show_number n) in
    let (p, q) =
      last_mark is_digit b'|' (front ++ identity g) (front ++ identity h) (show_number b)
        (show_number c) refl (all_of-show_number b) (all_of-show_number c)
        (sym (marked g b) ∙ e ∙ marked h c) in
    (append-cancel front p, show_number-injective b c q)
