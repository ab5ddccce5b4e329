-- ===== src/Base/Texts.antt =====
-- Lists of texts.
use Prim.Native.String.{String}
use text.Mathlib.Text.{◌==◌ as str_eq}
use text.Mathlib.TextEquality.{eq_iff}
use mathlib.Core.Path.{◌≡◌, refl, ap}
use mathlib.Core.Logic.{inl, inr}
use mathlib.Core.Bool.{Bool, true, false, not, ◌&&◌, ◌||◌}
use mathlib.Core.List.{List, [], ◌∷◌, ◌++◌}
use native.Mathlib.Omega.{arith}
use canterlot_api.Base.Tests.{if◌then◌else◌, Bool-cases}
use canterlot_api.Base.Lists.{any}

-- `text in texts`
abbrev pub has_text : String → List String → Bool
has_text t = any (λ s. str_eq s t)

-- The texts that are not `t`.
abbrev pub without_text : String → List String → List String
without_text t [] = []
without_text t (s ∷ ss) = if str_eq s t then without_text t ss else s ∷ without_text t ss

pub has_text-without_text : (t : String) (ss : List String) → has_text t (without_text t ss) ≡ false
has_text-without_text t [] = refl
has_text-without_text t (s ∷ ss) = ground (arith, has_text-without_text t ss)

pub has_text-append :
    (t : String) (ss rs : List String) → has_text t (ss ++ rs) ≡ (has_text t ss || has_text t rs)
has_text-append t [] rs = refl
has_text-append t (s ∷ ss) rs = ground (arith, has_text-append t ss rs)

pub str_eq_trans : (r s t : String) → str_eq s r ≡ true → str_eq s t ≡ str_eq r t
str_eq_trans r s t h = ap (λ u. str_eq u t) ((eq_iff s r).0 h)

-- Taking out one text leaves every other.
pub has_text-without :
    (t r : String) (ss : List String)
    → has_text r (without_text t ss) ≡ (has_text r ss && not (str_eq r t))
has_text-without t r [] = refl
has_text-without t r (s ∷ ss) = ground (arith, has_text-without t r ss, str_eq_trans r s t)

-- A test that `t` fails says the same without `t`.
pub apart-test :
    (good : String → Bool) (t r : String) → good t ≡ false → (good r && not (str_eq r t)) ≡ good r
apart-test good t r h = elim (Bool-cases (str_eq r t)) [
  | inl same ↦ ground (arith, ap good ((eq_iff r t).0 same))
  | inr other ↦ ground arith
]
