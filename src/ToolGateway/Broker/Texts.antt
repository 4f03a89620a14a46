-- ===== src/ToolGateway/Broker/Texts.antt =====
-- Beginnings, middles and ends of a text that is put together.
use Prim.Native.String.append
use text.Mathlib.TextEquality.{Char-path}
use Prim.Native.Char.{code}
use rev_pilot_ai.Base.{
  ℕ, String, true, List, [], ◌∷◌, ◌++◌, ◌≡◌, refl, ap, ◌∙◌, arith, codes, codes_eq, is_prefix,
  is_infix, prefixed, ◌≢◌,
}
use rev_pilot_ai.ToolGateway.Broker.{is_suffix}

pub codes-prefixed : (a b : String) → codes (prefixed a b) ≡ codes a ++ codes b
unfolding prefixed
codes-prefixed String.[] b = ap codes (append.nil b)
codes-prefixed (String.◌∷◌ c a) b =
    ap codes (append.cons c a b) ∙ ap (λ x. code c ∷ x) (codes-prefixed a b)

pub codes-injective : (a b : String) → codes a ≡ codes b → a ≡ b
codes-injective String.[] String.[] h = refl
codes-injective String.[] (String.◌∷◌ d b) h = absurd (cc)
codes-injective (String.◌∷◌ c a) String.[] h = absurd (cc)
codes-injective (String.◌∷◌ c a) (String.◌∷◌ d b) h =
    let first : code c ≡ code d = cc in
    let same = Char-path c d first in let rest = codes-injective a b (cc) in cc

codes_eq_self : (a : List ℕ) → codes_eq a a ≡ true
codes_eq_self [] = refl
codes_eq_self (x ∷ xs) = ground (arith, codes_eq_self xs)

pub is_prefix-append : (a b : List ℕ) → is_prefix a (a ++ b) ≡ true
is_prefix-append [] b = refl
is_prefix-append (x ∷ xs) b = ground (arith, is_prefix-append xs b)

pub is_suffix-append : (a b : List ℕ) → is_suffix b (a ++ b) ≡ true
unfolding is_suffix
is_suffix-append [] [] = refl
is_suffix-append [] (y ∷ ys) = ground (arith, codes_eq_self (y ∷ ys))
is_suffix-append (x ∷ xs) b = ground (arith, is_suffix-append xs b)

pub is_infix-append : (a b c : List ℕ) → is_infix b (a ++ (b ++ c)) ≡ true
unfolding is_infix
is_infix-append [] [] [] = refl
is_infix-append [] [] (z ∷ c) = refl
is_infix-append [] (y ∷ b) c = ground (arith, is_prefix-append (y ∷ b) c)
is_infix-append (x ∷ a) b c = ground (arith, is_infix-append a b c)

-- A text without a colon.
pub data NoColon : List ℕ → Type 0 where
  empty : NoColon []
  other : {x : ℕ} {xs : List ℕ} → x ≢ b':' → NoColon xs → NoColon (x ∷ xs)

-- Two texts without a colon, of which one begins with the other up to a colon, are one.
pub is_prefix-colon :
    (a b rest : List ℕ)
    → NoColon a
    → NoColon b
    → is_prefix (a ++ b':' ∷ []) (b ++ b':' ∷ rest) ≡ true
    → a ≡ b
is_prefix-colon [] [] rest na nb h = refl
is_prefix-colon [] (y ∷ b) rest na (other ne nb) h = absurd (ground arith)
is_prefix-colon (x ∷ a) [] rest (other ne na) nb h = absurd (ground arith)
is_prefix-colon (x ∷ a) (y ∷ b) rest (other ne na) (other ne' nb) h =
    let same : x ≡ y = ground arith in
    let tail = is_prefix-colon a b rest na nb (ground arith) in cc

pub is_prefix_under : (c a b : List ℕ) → is_prefix (c ++ a) (c ++ b) ≡ true → is_prefix a b ≡ true
is_prefix_under [] a b h = h
is_prefix_under (x ∷ c) a b h = is_prefix_under c a b (ground arith)
