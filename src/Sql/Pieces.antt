-- ===== src/Sql/Pieces.antt =====
-- What a condition is made of: its texts and its bound values in one order.
pub mod Shown
pub mod Plain
pub mod Numbered
mod Tests
use mathlib.Core.List.{append-nil}
use Prim.Native.Char.{code}
use Prim.Native.String.{[] as empty, ◌∷◌ as cons, ◌++◌ as append}
use text.Mathlib.TextLemmas.{cons-append, nil-append, append_assoc}
use gwf.Common.{ℕ, String, List, ◌+◌, ◌≡◌, ◌∷◌, ◌++◌, ◌==◌, [], if◌then◌else◌, String_eq, ℕ_eq}
use gwf.Sql.{
  BinOp, op_eq, op_neq, op_gt, op_lt, op_gt_eq, op_lt_eq, op_like, op_not_like, op_text, Cond,
  Conds, bin_pred, in_pred, not_in_pred, null_pred, not_null_pred, not_cond, and_conds, or_conds,
  no_conds, one_more, later_marks, marks, in_text, wrapped, and_later, bin_pred_repr, in_pred_repr,
  not_in_pred_repr, null_pred_repr, not_null_pred_repr, not_repr, bind_repr, and_repr, or_repr,
  later, translate, built, build,
}

-- How many question marks a text has.
pub questions : String → ℕ
questions empty = 0
questions (cons c s) = let rest = questions s in if code c == 63 then rest + 1 else rest

mutual
  -- No column of the condition is named with a question mark.
  pub HasPlainColumns : {Any : Type 0} → Cond Any → Type 0
  HasPlainColumns (bin_pred column op value) = questions column ≡ 0
  HasPlainColumns (in_pred column values) = questions column ≡ 0
  HasPlainColumns (not_in_pred column values) = questions column ≡ 0
  HasPlainColumns (null_pred column) = questions column ≡ 0
  HasPlainColumns (not_null_pred column) = questions column ≡ 0
  HasPlainColumns (not_cond c) = HasPlainColumns c
  HasPlainColumns (and_conds cs) = HavePlainColumns cs
  HasPlainColumns (or_conds cs) = HavePlainColumns cs

  HavePlainColumns : {Any : Type 0} → Conds Any → Type 0
  HavePlainColumns no_conds = Unit
  HavePlainColumns (one_more c cs) = HasPlainColumns c × HavePlainColumns cs

-- A condition is made of texts and of values.
pub data Piece (Any : Type 0) : Type 0 where
  written : String → Piece Any
  bound : Any → Piece Any

-- The values, in the order in which they stand.
pub values_in : {Any : Type 0} → List (Piece Any) → List Any
values_in [] = []
values_in (written s ∷ ps) = values_in ps
values_in (bound v ∷ ps) = v ∷ values_in ps

-- The text in which the first value has the placeholder of the number given, the next value that of
-- the next number, and so on.
pub numbered : {Any : Type 0} → (ℕ → String) → ℕ → List (Piece Any) → String
numbered nth_placeholder n [] = ""
numbered nth_placeholder n (written s ∷ ps) = append s (numbered nth_placeholder n ps)
numbered nth_placeholder n (bound v ∷ ps) =
    append (nth_placeholder n) (numbered nth_placeholder (n + 1) ps)

later_pieces : {Any : Type 0} → List Any → List (Piece Any)
later_pieces [] = []
later_pieces (v ∷ values) = written ", " ∷ bound v ∷ later_pieces values

list_pieces : {Any : Type 0} → List Any → List (Piece Any)
unfolding later_pieces
list_pieces [] = []
list_pieces (v ∷ values) = bound v ∷ later_pieces values

in_pieces : {Any : Type 0} → String → String → List Any → List (Piece Any)
unfolding list_pieces
in_pieces column word values =
    written column ∷ written word ∷ list_pieces values ++ written ")" ∷ []

mutual
  unfolding in_pieces

  -- What a condition is made of.
  pub pieces : {Any : Type 0} → Cond Any → List (Piece Any)
  pieces (bin_pred column op value) =
      written column ∷ written " " ∷ written (op_text op) ∷ written " " ∷ bound value ∷ []
  pieces (in_pred column values) = in_pieces column " IN (" values
  pieces (not_in_pred column values) = in_pieces column " NOT IN (" values
  pieces (null_pred column) = written column ∷ written " IS NULL" ∷ []
  pieces (not_null_pred column) = written column ∷ written " IS NOT NULL" ∷ []
  pieces (not_cond c) = written "NOT (" ∷ pieces c ++ written ")" ∷ []
  pieces (and_conds cs) = joined " AND " cs
  pieces (or_conds cs) = joined " OR " cs

  joined : {Any : Type 0} → String → Conds Any → List (Piece Any)
  joined word no_conds = []
  joined word (one_more c no_conds) = pieces c
  joined word (one_more c (one_more d cs)) =
      written "(" ∷ pieces c ++ rest_pieces word (one_more d cs) ++ written ")" ∷ []

  rest_pieces : {Any : Type 0} → String → Conds Any → List (Piece Any)
  rest_pieces word no_conds = []
  rest_pieces word (one_more c cs) = written word ∷ pieces c ++ rest_pieces word cs

-- With a question mark for each value.
form : {Any : Type 0} → List (Piece Any) → String
form [] = ""
form (written s ∷ ps) = append s (form ps)
form (bound v ∷ ps) = append "?" (form ps)

-- No text of the pieces has a question mark.
pub ArePlain : {Any : Type 0} → List (Piece Any) → Type 0
ArePlain [] = Unit
ArePlain (written s ∷ ps) = (questions s ≡ 0) × ArePlain ps
ArePlain (bound v ∷ ps) = ArePlain ps

-- A text and its arguments are those of the pieces.
abbrev IsShown : {Any : Type 0} → List (Piece Any) → String × List Any → Type 0
IsShown ps (s, args) = (s ≡ form ps) × (args ≡ values_in ps)
