-- ===== src/Value/Render.antt =====
-- `str(v)` and `repr(v)`.
use siem_lite.Prelude.{
  ℕ, suc, ◌/◌, ◌%◌, Bool, true, false, not, ◌&&◌, ◌||◌, [], ◌∷◌, ◌++◌, ltb, ◌==◌, if◌then◌else◌,
  ◌≡◌, refl, any_of,
}
use siem_lite.Text.Chars.{Text, codes}
use siem_lite.Text.Number.{show_number, hex_digit}
use siem_lite.Value.Defs.{
  ℤ, pos, negsuc, Value, null, boolean, int, real, str, list, dict, Items, nil, cons, Fields, end,
  field,
}

show_int : ℤ → Text
unfolding show_number
show_int (pos n) = show_number n
show_int (negsuc n) = b'-' ∷ show_number (suc n)

show_bool : Bool → Text
show_bool true = codes "True"
show_bool false = codes "False"

abbrev single_quote : ℕ
single_quote = 39

abbrev double_quote : ℕ
double_quote = 34

abbrev backslash : ℕ
backslash = 92

escape_char : ℕ → ℕ → Text
escape_char quote c =
    if c == quote || c == backslash
    then backslash ∷ c ∷ []
    else if c == 9
    then backslash ∷ b't' ∷ []
    else if c == 10
    then backslash ∷ b'n' ∷ []
    else if c == 13
    then backslash ∷ b'r' ∷ []
    else if ltb c 32 || c == 127
    then backslash ∷ b'x' ∷ hex_digit (c / 16) ∷ hex_digit (c % 16) ∷ []
    else c ∷ []

escape : ℕ → Text → Text
unfolding escape_char
escape quote [] = []
escape quote (c ∷ s) = escape_char quote c ++ escape quote s

repr_text : Text → Text
unfolding escape
repr_text s =
    let quote : ℕ =
      if any_of (◌==◌ single_quote) s && not (any_of (◌==◌ double_quote) s)
      then double_quote
      else single_quote in
    quote ∷ escape quote s ++ quote ∷ []

-- `, ` stands before each element but the first.
abbrev separated : Bool → Text → Text
separated first t = if first then t else codes ", " ++ t

unfoldable mutual
  unfolding show_int show_bool repr_text

  -- `repr(v)`
  pub repr : Value → Text
  repr null = codes "None"
  repr (boolean b) = show_bool b
  repr (int n) = show_int n
  repr (real t) = t
  repr (str s) = repr_text s
  repr (list vs) = codes "[" ++ repr_items true vs ++ codes "]"
  repr (dict fs) = codes "{" ++ repr_fields true fs ++ codes "}"

  pub repr_items : Bool → Items → Text
  repr_items first nil = []
  repr_items first (cons v vs) = separated first (repr v ++ repr_items false vs)

  pub repr_fields : Bool → Fields → Text
  repr_fields first end = []
  repr_fields first (field k v fs) =
      separated first (repr_text k ++ codes ": " ++ repr v ++ repr_fields false fs)

-- `str(v)`
unfoldable pub show : Value → Text
unfolding repr
show (str s) = s
show v = repr v

show_example :
    show (list (cons (int (pos 7)) (cons (str (codes "it's")) (cons null nil))))
    ≡ codes "[7, \"it's\", None]"
unfolding show
show_example = refl
