-- ===== src/Jobs/Bounded.antt =====
-- The stored failure text: never blank, so that a failed job passes its entity's checks.
use Prim.Native.String.{◌∷◌, ◌++◌, count}
use text.Mathlib.TextEquality.{eq_iff}
use text.Mathlib.TextLemmas.{cons-append, cons≢nil}
use eval_ops.Prelude.{
  String, ◌≡◌, refl, inl, inr, false, Bool-cases, ltb, if◌then◌else◌, ◌==◌, string_eq,
}
use eval_ops.Text.{is_blank}
use eval_ops.Text.Strip.{BeginsVisible, strip_cases, visible-is_blank}
use eval_ops.Text.{strip}
use eval_ops.Jobs.Repository.{take_chars, max_error_len, shorten, bound_error}

shorten_visible : (s : String) → BeginsVisible s → BeginsVisible (shorten s)
unfolding shorten
shorten_visible s (c, t, e, v) = elim (Bool-cases (ltb max_error_len (count s))) [
  | inl l ↦ rw (l, e) (c, take_chars 1998 t ++ "…", cons-append c (take_chars 1998 t) "…", v)
  | inr l ↦ rw l (c, t, e, v)
]

visible_bound :
    (s : String) → BeginsVisible s → is_blank (if s == "" then "unknown error" else s) ≡ false
visible_bound s (c, t, e, v) = rw e (elim (Bool-cases ((c ∷ t) == "")) [
  | inl h ↦ absurd (cons≢nil ((eq_iff (c ∷ t) "").0 h))
  | inr h ↦ rw h (visible-is_blank c t v)
])

-- The error text that is stored is never blank.
pub bound_error-is_blank : (text : String) → is_blank (bound_error text) ≡ false
unfolding bound_error shorten is_blank
bound_error-is_blank text = elim (strip_cases text) [
  | inl e ↦ rw e refl
  | inr b ↦ visible_bound (shorten (strip text)) (shorten_visible (strip text) b)
]
