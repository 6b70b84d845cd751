-- ===== src/Common/Text.antt =====
-- A JavaScript string is the list of its UTF-16 code units. `startsWith`, `split`, `includes`.
use Prim.Native.Char.{code}
use Prim.Native.String.{String}
use Prim.Native.Nat.{◌+◌, ◌-◌, ℕ, zero, suc}
use native.Mathlib.Decide.{ℕ_discrete}
use mathlib.Core.Path.{◌≡◌, refl, ap₂, sym}
use mathlib.Core.Logic.{◌↔◌}
use mathlib.Core.Bool.{Bool, true, false, ◌&&◌, ◌||◌}
use mathlib.Core.List.{List, [], ◌∷◌, ◌++◌, map}
use native.Mathlib.Omega.{arith}
use erp_global.Common.Lists.{length}
use erp_global.Common.Tests.{leb, ◌==◌, ==_iff, if◌then◌else◌, &&_iff}

abbrev pub Text : Type 0
Text = List ℕ

-- The text of an ASCII literal.
abbrev pub codes : String → Text
codes String.[] = []
codes (String.◌∷◌ c s) = code c ∷ codes s

-- `===` on strings, as a decision.
unfoldable pub Text-discrete : Discrete Text
Text-discrete = hlevel ℕ_discrete

infix 50 ◌===◌
abbrev pub ◌===◌ : Text → Text → Bool
a === b = elim (Text-discrete a b) [ yes _ ↦ true | no _ ↦ false ]

pub ===_iff : (a b : Text) → ((a === b) ≡ true) ↔ (a ≡ b)
===_iff a b = ground arith

-- `s.startsWith(p)`
unfoldable pub starts_with : Text → Text → Bool
starts_with s [] = true
starts_with [] (c ∷ p) = false
starts_with (d ∷ s) (c ∷ p) = c == d && starts_with s p

-- `s.includes(c)` for a single code unit.
unfoldable pub includes : Text → ℕ → Bool
includes [] c = false
includes (d ∷ s) c = c == d || includes s c

-- `s.split(sep)` for a single code unit; empty pieces stay.
unfoldable pub cons_head : ℕ → List Text → List Text
cons_head c [] = (c ∷ []) ∷ []
cons_head c (p ∷ ps) = (c ∷ p) ∷ ps

unfoldable pub split : ℕ → Text → List Text
unfolding cons_head
split sep [] = [] ∷ []
split sep (c ∷ s) = let rest = split sep s in if c == sep then [] ∷ rest else cons_head c rest

-- `p` is a prefix of `s` exactly when `s` is `p` and a rest.
pub starts_with_sound : (s p : Text) → starts_with s p ≡ true → (r : Text) × (s ≡ p ++ r)
unfolding starts_with
starts_with_sound s [] h = (s, refl)
starts_with_sound [] (c ∷ p) h = cc
starts_with_sound (d ∷ s) (c ∷ p) h =
    let (same, below) = (&&_iff _ _).0 h in
    let (r, e) = starts_with_sound s p below in
    (r, ap₂ (λ (a : ℕ) (t : Text). a ∷ t) (sym ((==_iff c d).0 same)) e)

pub starts_with-append : (p r : Text) → starts_with (p ++ r) p ≡ true
unfolding starts_with
starts_with-append [] r = refl
starts_with-append (c ∷ p) r = ground (arith, starts_with-append p r)

pub starts_with_refl : (p : Text) → starts_with p p ≡ true
unfolding starts_with
starts_with_refl [] = refl
starts_with_refl (c ∷ p) = ground (arith, starts_with_refl p)

pub starts_with_trans :
    (s p q : Text) → starts_with s p ≡ true → starts_with p q ≡ true → starts_with s q ≡ true
unfolding starts_with
starts_with_trans s p [] h k = refl
starts_with_trans s [] (c ∷ q) h k = cc
starts_with_trans [] (d ∷ p) (c ∷ q) h k = cc
starts_with_trans (b ∷ s) (d ∷ p) (c ∷ q) h k = ground (arith, starts_with_trans s p q)

-- `s.slice(n)`
unfoldable pub drop : ℕ → Text → Text
drop zero s = s
drop (suc n) [] = []
drop (suc n) (c ∷ s) = drop n s

-- `s.slice(0, n)`
unfoldable pub take : ℕ → Text → Text
take zero s = []
take (suc n) [] = []
take (suc n) (c ∷ s) = c ∷ take n s

pub drop-append : (p r : Text) → drop (length p) (p ++ r) ≡ r
unfolding drop
drop-append [] r = refl
drop-append (c ∷ p) r = drop-append p r

-- `s.includes(p)`
unfoldable pub contains : Text → Text → Bool
contains [] p = starts_with [] p
contains (c ∷ s) p = starts_with (c ∷ s) p || contains s p

-- A capital ASCII letter made small, as a regular expression with the flag `i` compares.
abbrev pub lower_code : ℕ → ℕ
lower_code c = if leb b'A' c && leb c b'Z' then c + 32 else c

unfoldable pub lower : Text → Text
lower = map lower_code

-- `s.toUpperCase()` of a text of ASCII characters.
abbrev pub upper_code : ℕ → ℕ
upper_code c = if leb b'a' c && leb c b'z' then c - 32 else c

unfoldable pub upper : Text → Text
upper = map upper_code
