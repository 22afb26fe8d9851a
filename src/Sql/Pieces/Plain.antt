-- ===== src/Sql/Pieces/Plain.antt =====
-- No question mark stands in the texts of a condition.
use gwf.Common.{String, refl, List, ◌≡◌, ◌∷◌, ◌++◌, [], String_eq, ℕ_eq}
use gwf.Sql.{
  BinOp, op_eq, op_neq, op_gt, op_lt, op_gt_eq, op_lt_eq, op_like, op_not_like, op_text, Cond,
  Conds, bin_pred, in_pred, not_in_pred, null_pred, not_null_pred, not_cond, and_conds, or_conds,
  no_conds, one_more,
}
use gwf.Sql.Pieces.{
  questions, HasPlainColumns, HavePlainColumns, Piece, written, bound, later_pieces, list_pieces,
  in_pieces, pieces, joined, rest_pieces, ArePlain,
}

op_text-plain : (op : BinOp) → questions (op_text op) ≡ 0
unfolding questions op_text
op_text-plain op_eq = refl
op_text-plain op_neq = refl
op_text-plain op_gt = refl
op_text-plain op_lt = refl
op_text-plain op_gt_eq = refl
op_text-plain op_lt_eq = refl
op_text-plain op_like = refl
op_text-plain op_not_like = refl

ArePlain-append :
    {Any : Type 0} (ps qs : List (Piece Any)) → ArePlain ps → ArePlain qs → ArePlain (ps ++ qs)
unfolding ArePlain
ArePlain-append [] qs h k = k
ArePlain-append (written s ∷ ps) qs h k = (h.0, ArePlain-append ps qs h.1 k)
ArePlain-append (bound v ∷ ps) qs h k = ArePlain-append ps qs h k

later_pieces-ArePlain : {Any : Type 0} (values : List Any) → ArePlain (later_pieces values)
unfolding later_pieces ArePlain questions
later_pieces-ArePlain [] = tt
later_pieces-ArePlain (v ∷ values) = (refl, later_pieces-ArePlain values)

list_pieces-ArePlain : {Any : Type 0} (values : List Any) → ArePlain (list_pieces values)
unfolding list_pieces ArePlain
list_pieces-ArePlain [] = tt
list_pieces-ArePlain (v ∷ values) = later_pieces-ArePlain values

closed-ArePlain :
    {Any : Type 0} (ps : List (Piece Any)) → ArePlain ps → ArePlain (ps ++ written ")" ∷ [])
closed-ArePlain ps h =
    ArePlain-append ps (written ")" ∷ []) h (unfold ArePlain questions in (refl, tt))

mutual
  unfolding pieces in_pieces joined rest_pieces ArePlain HasPlainColumns HavePlainColumns questions

  pub pieces-ArePlain : {Any : Type 0} (c : Cond Any) → HasPlainColumns c → ArePlain (pieces c)
  pieces-ArePlain (bin_pred column op value) h = (h, (refl, (op_text-plain op, (refl, tt))))
  pieces-ArePlain (in_pred column values) h =
      (h, (refl, closed-ArePlain (list_pieces values) (list_pieces-ArePlain values)))
  pieces-ArePlain (not_in_pred column values) h =
      (h, (refl, closed-ArePlain (list_pieces values) (list_pieces-ArePlain values)))
  pieces-ArePlain (null_pred column) h = (h, (refl, tt))
  pieces-ArePlain (not_null_pred column) h = (h, (refl, tt))
  pieces-ArePlain (not_cond c) h = (refl, closed-ArePlain (pieces c) (pieces-ArePlain c h))
  pieces-ArePlain (and_conds cs) h = joined-ArePlain " AND " cs refl h
  pieces-ArePlain (or_conds cs) h = joined-ArePlain " OR " cs refl h

  joined-ArePlain :
      {Any : Type 0} (word : String) (cs : Conds Any)
      → questions word ≡ 0
      → HavePlainColumns cs
      → ArePlain (joined word cs)
  joined-ArePlain word no_conds plain h = tt
  joined-ArePlain word (one_more c no_conds) plain h = pieces-ArePlain c h.0
  joined-ArePlain word (one_more c (one_more d cs)) plain h = (
    refl,
    closed-ArePlain (pieces c ++ rest_pieces word (one_more d cs)) (
        ArePlain-append (pieces c) (rest_pieces word (one_more d cs)) (pieces-ArePlain c h.0)
          (rest_pieces-ArePlain word (one_more d cs) plain h.1)),
  )

  rest_pieces-ArePlain :
      {Any : Type 0} (word : String) (cs : Conds Any)
      → questions word ≡ 0
      → HavePlainColumns cs
      → ArePlain (rest_pieces word cs)
  rest_pieces-ArePlain word no_conds plain h = tt
  rest_pieces-ArePlain word (one_more c cs) plain h = (
    plain,
    ArePlain-append (pieces c) (rest_pieces word cs) (pieces-ArePlain c h.0)
        (rest_pieces-ArePlain word cs plain h.1),
  )
