-- ===== src/Calibration/Bounded.antt =====
-- calibration.py: `_bounded`
use Prim.Native.Char.{code}
use Prim.Native.String.{[], ◌∷◌, ◌++◌}
use eval_ops.Prelude.{
  ℕ, zero, suc, ◌-◌, String, Bool, true, false, string_eq, ◌==◌, ltb, if◌then◌else◌,
}
use eval_ops.Text.{is_space}

-- `" ".join(text.split())`, where `fresh` says that a word has ended or none has begun, and
-- `first` that none has begun.
unfoldable pub collapse : Bool → Bool → String → String
collapse fresh first [] = []
collapse fresh first (c ∷ s) =
    let skipped = collapse true first s in
    let taken = collapse false false s in
    if is_space (code c)
    then skipped
    else if fresh
    then (if first then c ∷ taken else " " ++ (c ∷ taken))
    else c ∷ taken

-- `len(text)` and `text[:n]`
unfoldable pub text_length : String → ℕ
text_length [] = 0
text_length (c ∷ s) = suc (text_length s)

unfoldable pub text_take : ℕ → String → String
text_take zero s = []
text_take (suc n) [] = []
text_take (suc n) (c ∷ s) = c ∷ text_take n s

abbrev max_error_chars : ℕ
max_error_chars = 2000

unfoldable pub bounded : String → String
unfolding collapse text_length text_take
bounded text =
    let cleaned = collapse true true text in
    let shown =
      if ltb max_error_chars (text_length cleaned)
      then text_take (max_error_chars - 1) cleaned ++ "…"
      else cleaned in
    if shown == "" then "unknown error" else shown
