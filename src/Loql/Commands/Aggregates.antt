-- ===== src/Loql/Commands/Aggregates.antt =====
-- The aggregate that `_agg` of `app/loql/parser.py` makes is closed.
use siem_lite.Prelude.{◌≡◌, refl, true, false, ◌&&◌, not, [], ◌∷◌, Option, none, some, arith}
use siem_lite.Text.Chars.{Text, codes, text_eq, text_eq_iff, member, lower}
use siem_lite.Loql.Lexer.{is_identifier}
use siem_lite.Loql.Lexer.Names.{is_identifier-lower, is_identifier-joined}
use siem_lite.Loql.Commands.{aggregates, aggregate, default_out, make_agg, is_some}
use siem_lite.Loql.Parser.Closed.{IsName, IfThere, IsClosedAgg}
use siem_lite.Loql.Commands.Lists.{if-either}

pub aggregate-IsName : (name : Text) → IsName name → IsName (aggregate name)
unfolding aggregate is_identifier
aggregate-IsName name h =
    if-either IsName (text_eq (lower name) (codes "distinct_count")) (codes "dc") (lower name) refl
      (is_identifier-lower name h)

default_out-IsName :
    (func : Text) (arg : Option Text)
    → IsName func
    → IfThere IsName arg
    → IsName (default_out func arg)
unfolding is_identifier
default_out-IsName func none h k = refl
default_out-IsName func (some []) h k = refl
default_out-IsName func (some (c ∷ s)) h k = is_identifier-joined func (c ∷ s) h k

counts_alone :
    (func : Text) (arg : Option Text)
    → (not (text_eq func (codes "count")) && not (is_some arg)) ≡ false
    → arg ≡ none
    → func ≡ codes "count"
counts_alone func none h e = (text_eq_iff func (codes "count")).0 (ground arith)
counts_alone func (some a) h e = absurd (cc)

pub make_agg-IsClosedAgg :
    (func : Text) (arg out : Option Text)
    → IsName func
    → member func aggregates ≡ true
    → (not (text_eq func (codes "count")) && not (is_some arg)) ≡ false
    → IfThere IsName arg
    → IfThere IsName out
    → IsClosedAgg (make_agg func arg out)
unfolding IsClosedAgg
make_agg-IsClosedAgg func arg none name known field h k =
    (known, counts_alone func arg field, h, default_out-IsName func arg name h)
make_agg-IsClosedAgg func arg (some out) name known field h k =
    (known, counts_alone func arg field, h, k)
