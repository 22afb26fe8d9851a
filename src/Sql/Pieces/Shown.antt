-- ===== src/Sql/Pieces/Shown.antt =====
-- The text and the arguments of a condition are those of its pieces.
use mathlib.Core.List.{append-nil}
use Prim.Native.String.{◌++◌ as append}
use text.Mathlib.TextLemmas.{nil-append, append_assoc}
use gwf.Common.{String, refl, sym, ap, List, ◌≡◌, ◌∷◌, ◌++◌, [], String_eq, ℕ_eq}
use gwf.Sql.{
  Cond, Conds, bin_pred, in_pred, not_in_pred, null_pred, not_null_pred, not_cond, and_conds,
  or_conds, no_conds, one_more, later_marks, marks, in_text, wrapped, and_later, bin_pred_repr,
  in_pred_repr, not_in_pred_repr, null_pred_repr, not_null_pred_repr, not_repr, bind_repr, and_repr,
  or_repr, later,
}
use gwf.Sql.Pieces.{
  Piece, written, bound, values_in, later_pieces, list_pieces, in_pieces, pieces, joined,
  rest_pieces, form, IsShown,
}

form-append :
    {Any : Type 0} (ps qs : List (Piece Any)) → form (ps ++ qs) ≡ append (form ps) (form qs)
unfolding form
form-append [] qs = sym (nil-append (form qs))
form-append (written s ∷ ps) qs = rw (form-append ps qs) (sym (append_assoc s (form ps) (form qs)))
form-append (bound v ∷ ps) qs = rw (form-append ps qs) (sym (append_assoc "?" (form ps) (form qs)))

values_in-append :
    {Any : Type 0} (ps qs : List (Piece Any)) → values_in (ps ++ qs) ≡ values_in ps ++ values_in qs
unfolding values_in
values_in-append [] qs = refl
values_in-append (written s ∷ ps) qs = values_in-append ps qs
values_in-append (bound v ∷ ps) qs = ap (λ vs. v ∷ vs) (values_in-append ps qs)

later_pieces-form :
    {Any : Type 0} (values : List Any) → later_marks values ≡ form (later_pieces values)
unfolding later_marks later_pieces form
later_pieces-form [] = refl
later_pieces-form (v ∷ values) =
    rw (later_pieces-form values) (append_assoc ", " "?" (form (later_pieces values)))

list_pieces-form : {Any : Type 0} (values : List Any) → marks values ≡ form (list_pieces values)
unfolding marks list_pieces form
list_pieces-form [] = refl
list_pieces-form (v ∷ values) = ap (append "?") (later_pieces-form values)

values_in-later_pieces :
    {Any : Type 0} (values : List Any) → values_in (later_pieces values) ≡ values
unfolding values_in later_pieces
values_in-later_pieces [] = refl
values_in-later_pieces (v ∷ values) = ap (λ vs. v ∷ vs) (values_in-later_pieces values)

values_in-list_pieces : {Any : Type 0} (values : List Any) → values_in (list_pieces values) ≡ values
unfolding values_in list_pieces
values_in-list_pieces [] = refl
values_in-list_pieces (v ∷ values) = ap (λ vs. v ∷ vs) (values_in-later_pieces values)

in_pieces-IsShown :
    {Any : Type 0} (column word : String) (values : List Any)
    → IsShown (in_pieces column word values) (in_text column word values, values)
unfolding in_pieces in_text form values_in
in_pieces-IsShown column word values = (
  rw (form-append (list_pieces values) (written ")" ∷ []), list_pieces-form values) refl,
  rw
      (
        values_in-append (list_pieces values) (written ")" ∷ []),
        values_in-list_pieces values,
        append-nil values,
      )
      refl,
)

not_repr-IsShown :
    {Any : Type 0} (ps : List (Piece Any)) (a : String × List Any)
    → IsShown ps a
    → IsShown (written "NOT (" ∷ ps ++ written ")" ∷ []) (not_repr a)
unfolding not_repr form values_in
not_repr-IsShown ps (s, args) (h, k) = (
  rw (form-append ps (written ")" ∷ []), h) refl,
  rw (values_in-append ps (written ")" ∷ []), append-nil (values_in ps), k) refl,
)

wrapped-IsShown :
    {Any : Type 0} (ps qs : List (Piece Any)) (a b : String × List Any)
    → IsShown ps a
    → IsShown qs b
    → IsShown (written "(" ∷ ps ++ qs ++ written ")" ∷ []) (wrapped a b)
unfolding wrapped form values_in
wrapped-IsShown ps qs (s, args) (rest, rest_args) (h, k) (h', k') = (
  rw
      (
        form-append (ps ++ qs) (written ")" ∷ []),
        form-append ps qs,
        append_assoc (form ps) (form qs) (form (written ")" ∷ [])),
        h,
        h',
      )
      refl,
  rw
      (
        values_in-append (ps ++ qs) (written ")" ∷ []),
        append-nil (values_in (ps ++ qs)),
        values_in-append ps qs,
        k,
        k',
      )
      refl,
)

and_later-IsShown :
    {Any : Type 0} (word : String) (ps qs : List (Piece Any)) (a b : String × List Any)
    → IsShown ps a
    → IsShown qs b
    → IsShown (written word ∷ ps ++ qs) (and_later word a b)
unfolding and_later form values_in
and_later-IsShown word ps qs (s, args) (rest, rest_args) (h, k) (h', k') =
    (rw (form-append ps qs, h, h') refl, rw (values_in-append ps qs, k, k') refl)

mutual
  unfolding pieces joined rest_pieces bind_repr and_repr or_repr later bin_pred_repr in_pred_repr
      not_in_pred_repr null_pred_repr not_null_pred_repr form values_in

  pub bind_repr-IsShown : {Any : Type 0} (c : Cond Any) → IsShown (pieces c) (bind_repr c)
  bind_repr-IsShown (bin_pred column op value) = (refl, refl)
  bind_repr-IsShown (in_pred column values) = in_pieces-IsShown column " IN (" values
  bind_repr-IsShown (not_in_pred column values) = in_pieces-IsShown column " NOT IN (" values
  bind_repr-IsShown (null_pred column) = (refl, refl)
  bind_repr-IsShown (not_null_pred column) = (refl, refl)
  bind_repr-IsShown (not_cond c) = not_repr-IsShown (pieces c) (bind_repr c) (bind_repr-IsShown c)
  bind_repr-IsShown (and_conds cs) = and_repr-IsShown cs
  bind_repr-IsShown (or_conds cs) = or_repr-IsShown cs

  and_repr-IsShown : {Any : Type 0} (cs : Conds Any) → IsShown (joined " AND " cs) (and_repr cs)
  and_repr-IsShown no_conds = (refl, refl)
  and_repr-IsShown (one_more c no_conds) = bind_repr-IsShown c
  and_repr-IsShown (one_more c (one_more d cs)) =
      wrapped-IsShown (pieces c) (rest_pieces " AND " (one_more d cs)) (bind_repr c) _
        (bind_repr-IsShown c)
        (and_later-IsShown " AND " (pieces d) (rest_pieces " AND " cs) (bind_repr d)
          (later " AND " cs) (bind_repr-IsShown d) (later-IsShown " AND " cs))

  or_repr-IsShown : {Any : Type 0} (cs : Conds Any) → IsShown (joined " OR " cs) (or_repr cs)
  or_repr-IsShown no_conds = (refl, refl)
  or_repr-IsShown (one_more c no_conds) = bind_repr-IsShown c
  or_repr-IsShown (one_more c (one_more d cs)) =
      wrapped-IsShown (pieces c) (rest_pieces " OR " (one_more d cs)) (bind_repr c) _
        (bind_repr-IsShown c)
        (and_later-IsShown " OR " (pieces d) (rest_pieces " OR " cs) (bind_repr d) (later " OR " cs)
          (bind_repr-IsShown d) (later-IsShown " OR " cs))

  later-IsShown :
      {Any : Type 0} (word : String) (cs : Conds Any)
      → IsShown (rest_pieces word cs) (later word cs)
  later-IsShown word no_conds = (refl, refl)
  later-IsShown word (one_more c cs) =
      and_later-IsShown word (pieces c) (rest_pieces word cs) (bind_repr c) (later word cs)
        (bind_repr-IsShown c) (later-IsShown word cs)
