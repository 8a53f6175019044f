-- ===== src/Common/Text.antt =====
-- Byte strings cut at a character, as the programs do with `strchr`.
use Prim.Native.Nat.{ℕ}
use mathlib.Core.Path.{◌≡◌, refl}
use mathlib.Core.Logic.{◌≢◌}
use mathlib.Core.Bool.{false}
use mathlib.Core.List.{[], ◌∷◌, ◌++◌}
use mathlib.Core.Option.{Option, none, some}
use native.Mathlib.Omega.{arith}
use my_notes.Common.Tests.{◌==◌, if◌then◌else◌, Bytes}
use my_notes.Common.Lists.{All}

-- What stands before the first `c`, and what stands behind it if there is one.
unfoldable pub cut : ℕ → Bytes → Bytes × Option Bytes
cut c [] = ([], none)
cut c (b ∷ s) = let further = cut c s in if b == c then ([], some s) else (b ∷ further.0, further.1)

abbrev pub Lacks : ℕ → Bytes → Type 0
Lacks c s = All (λ b. b ≢ c) s

pub cut-some : (c : ℕ) (s rest : Bytes) → Lacks c s → cut c (s ++ c ∷ rest) ≡ (s, some rest)
unfolding cut
cut-some c [] rest h = ground arith
cut-some c (b ∷ s) rest h =
    let other : (b == c) ≡ false = ground (arith, h.0) in rw (other, cut-some c s rest h.1) refl

pub cut-none : (c : ℕ) (s : Bytes) → Lacks c s → cut c s ≡ (s, none)
unfolding cut
cut-none c [] h = refl
cut-none c (b ∷ s) h =
    let other : (b == c) ≡ false = ground (arith, h.0) in rw (other, cut-none c s h.1) refl
