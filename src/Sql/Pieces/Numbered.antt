-- ===== src/Sql/Pieces/Numbered.antt =====
-- What a where clause writes: each value's placeholder under the value's own number.
use Prim.Native.Char.{code}
use Prim.Native.String.{[] as empty, ◌∷◌ as cons, ◌++◌ as append}
use text.Mathlib.TextLemmas.{cons-append, nil-append}
use gwf.Common.{
  ℕ, String, refl, ap, false, some, List, arith, eq_iff, ◌+◌, ◌≡◌, ◌∙◌, ◌≢◌, ◌∷◌, ◌==◌, [],
  String_eq, ℕ_eq,
}
use gwf.Sql.{Cond, bind_repr, translate, built, build}
use gwf.Sql.Pieces.{
  questions, HasPlainColumns, Piece, written, bound, values_in, numbered, pieces, form, ArePlain,
  IsShown,
}
use gwf.Sql.Pieces.Shown.{bind_repr-IsShown}
use gwf.Sql.Pieces.Plain.{pieces-ArePlain}

translate_plain :
    (nth_placeholder : ℕ → String) (n : ℕ) (s t : String)
    → questions s ≡ 0
    → translate nth_placeholder n (append s t) ≡ append s (translate nth_placeholder n t)
unfolding translate questions
translate_plain nth_placeholder n empty t h =
    rw (nil-append t, nil-append (translate nth_placeholder n t)) refl
translate_plain nth_placeholder n (cons c s) t h =
    let other : (code c == 63) ≡ false = ground arith in
    let rest : questions s ≡ 0 = ground arith in
    rw
      (
        cons-append c s t,
        other,
        translate_plain nth_placeholder n s t rest,
        cons-append c s (translate nth_placeholder n t),
      )
      refl

translate-form :
    {Any : Type 0} (nth_placeholder : ℕ → String) (n : ℕ) (ps : List (Piece Any))
    → ArePlain ps
    → translate nth_placeholder n (form ps) ≡ numbered nth_placeholder n ps
unfolding form numbered ArePlain translate
translate-form nth_placeholder n [] h = refl
translate-form nth_placeholder n (written s ∷ ps) h =
    translate_plain nth_placeholder n s (form ps) h.0
    ∙ ap (append s) (translate-form nth_placeholder n ps h.1)
translate-form nth_placeholder n (bound v ∷ ps) h =
    rw (cons-append "?" "" (form ps), nil-append (form ps))
      (ap (append (nth_placeholder n)) (translate-form nth_placeholder (n + 1) ps h))

built_lem :
    {Any : Type 0} (nth_placeholder : ℕ → String) (n : ℕ) (ps : List (Piece Any))
    (a : String × List Any)
    → IsShown ps a
    → ArePlain ps
    → a.0 ≢ ""
    → built nth_placeholder n a ≡ (append " WHERE " (numbered nth_placeholder n ps), values_in ps)
unfolding built
built_lem nth_placeholder n ps (s, args) (h, k) plain some_text =
    let full : (s == "") ≡ false = ground (arith, eq_iff s "") in
    rw (full, h, k, translate-form nth_placeholder n ps plain) refl

-- Where no column is named with a question mark and the condition has a text, the clause is what the
-- condition is made of in its order: every bound value has one placeholder, at its place, under the
-- start's number plus the number of values before it, and the arguments are the values in that order.
pub build-numbered :
    {Any : Type 0} (nth_placeholder : ℕ → String) (start_nth : ℕ) (c : Cond Any)
    → HasPlainColumns c
    → (bind_repr c).0 ≢ ""
    → build nth_placeholder start_nth (some c)
      ≡ (append " WHERE " (numbered nth_placeholder start_nth (pieces c)), values_in (pieces c))
unfolding build
build-numbered nth_placeholder start_nth c plain some_text =
    built_lem nth_placeholder start_nth (pieces c) (bind_repr c) (bind_repr-IsShown c)
      (pieces-ArePlain c plain) some_text
