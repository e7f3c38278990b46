-- ===== src/Prelude/Keys.antt =====
-- Python's `==` on keys, as an interface with an instance for each type of key in the program.
use Prim.Native.Nat.{ℕ, compare, Ordering}
use Prim.Native.String.{String}
use mathlib.Core.Path.{◌≡◌, refl}
use mathlib.Core.Logic.{◌↔◌}
use mathlib.Core.Bool.{Bool, true, false, ◌&&◌}
use native.Mathlib.Omega.{arith}
use text.Mathlib.Text.{◌==◌ as str_eq}
use text.Mathlib.TextEquality.{eq_iff}

pub record Eq {ℓ} (K : Type ℓ) : Type ℓ where
  pub beq : (j k : K) → Bool
  pub beq_iff : (j k : K) → (beq j k ≡ true) ↔ (j ≡ k)

infix 50 ◌==◌
-- The test of the key type at hand.
abbrev pub ◌==◌ {ℓ} : {K : Type ℓ} ⦃keys : Eq K⦄ (j k : K) → Bool
◌==◌ ⦃keys⦄ j k = keys.beq j k

abbrev pub nat_beq : ℕ → ℕ → Bool
nat_beq a b = elim (compare a b) [ Ordering.eq ↦ true | _ ↦ false ]

pub nat_beq_iff : (a b : ℕ) → (nat_beq a b ≡ true) ↔ (a ≡ b)
nat_beq_iff a b = ground arith

instance abbrev pub nat_eq : Eq ℕ
nat_eq = record { beq = nat_beq; beq_iff = nat_beq_iff }

instance abbrev pub string_eq : Eq String
string_eq = record { beq = str_eq; beq_iff = eq_iff }

-- A key that is a pair of a text and a number, such as `(case_id, repeat_index)`.
abbrev pub pair_beq : String × ℕ → String × ℕ → Bool
pair_beq (s, m) (t, n) = str_eq s t && nat_beq m n

pub pair_beq_iff : (p q : String × ℕ) → (pair_beq p q ≡ true) ↔ (p ≡ q)
pair_beq_iff (s, m) (t, n) = ground (arith, eq_iff s t)

instance abbrev pub pair_eq : Eq (String × ℕ)
pair_eq = record { beq = pair_beq; beq_iff = pair_beq_iff }

pub beq_self {ℓ} : {A : Type ℓ} ⦃e : Eq A⦄ (a : A) → (a == a) ≡ true
beq_self ⦃e⦄ a = (e.beq_iff a a).1 refl
