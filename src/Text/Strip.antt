-- ===== src/Text/Strip.antt =====
-- What `strip` leaves: nothing, or a text that begins with a visible character.
use Prim.Native.Char.{Char, code}
use Prim.Native.String.{[], ◌∷◌}
use eval_ops.Prelude.{String, ◌≡◌, refl, ◌⊎◌, inl, inr, false, Bool-cases}
use eval_ops.Text.{is_space, is_blank, lstrip, rstrip, strip}

abbrev pub BeginsVisible : String → Type 0
BeginsVisible s = (c : Char) × (t : String) × (s ≡ c ∷ t) × (is_space (code c) ≡ false)

lstrip_cases : (s : String) → (lstrip s ≡ "") ⊎ BeginsVisible (lstrip s)
unfolding lstrip
lstrip_cases [] = inl refl
lstrip_cases (c ∷ s) = elim (Bool-cases (is_space (code c))) [
  | inl e ↦ rw e (lstrip_cases s)
  | inr e ↦ rw e (inr (c, s, refl, e))
]

pub strip_cases : (s : String) → (strip s ≡ "") ⊎ BeginsVisible (strip s)
unfolding strip
strip_cases s = lstrip_cases (rstrip s)

pub visible-is_blank :
    (c : Char) (t : String) → is_space (code c) ≡ false → is_blank (c ∷ t) ≡ false
unfolding is_blank
visible-is_blank c t e = rw e
