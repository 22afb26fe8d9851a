-- ===== src/Coord.antt =====
-- gw/coord/mode.go: the coordination modes and their spelling.
use gwf.Common.{
  String, refl, sym, Option, none, some, arith, eq_iff, ◌≡◌, ◌≢◌, ◌↔◌, ◌==◌, if◌then◌else◌,
  String_eq,
}

-- `undeclared` is the zero value.
pub data Mode : Type 0 where
  undeclared inproc crossproc : Mode

-- `none` is the error.
pub parse_mode : String → Option Mode
parse_mode s =
    if s == "inproc" then some inproc else if s == "crossproc" then some crossproc else none

pub to_string : Mode → String
to_string inproc = "inproc"
to_string crossproc = "crossproc"
to_string undeclared = "undeclared"

-- A string is read as a mode exactly if it is that mode's spelling and the mode is a choice.
parse_mode_lem :
    (s : String) (m : Mode) → (parse_mode s ≡ some m) ↔ ((to_string m ≡ s) × (m ≢ undeclared))
unfolding parse_mode to_string
parse_mode_lem s undeclared = (λ h. absurd (ground arith), λ h. absurd (h.1 refl))
parse_mode_lem s inproc = (λ h. ground (arith, eq_iff s "inproc"), λ h. rw (sym h.0) refl)
parse_mode_lem s crossproc = (λ h. ground (arith, eq_iff s "crossproc"), λ h. rw (sym h.0) refl)
