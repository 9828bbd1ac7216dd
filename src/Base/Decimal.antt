-- ===== src/Base/Decimal.antt =====
-- The decimal text of a usize, as `format!` writes it, and how it is read.
use Prim.Native.Nat.{ℕ, zero, suc, ◌+◌, ◌-◌, ◌*◌, ◌/◌, ◌%◌, ◌^◌, ◌<◌}
use Prim.Native.Char.{Char, code}
use Prim.Native.String.{String, char_at}
use mathlib.Core.Path.{◌≡◌, refl, sym, ◌∙◌, ap}
use mathlib.Core.Bool.{Bool, true, false}
use native.Mathlib.Omega.{arith}
use rs_run.Base.Tests.{◌==◌, if◌then◌else◌}

-- Of a number below ten.
unfoldable pub digit : ℕ → Char
digit n = char_at "0123456789" n

-- The digits of a number in front of a text, the last one first.
unfoldable pub digits : ℕ → ℕ → String → String
digits zero n text = text
digits (suc fuel) n text =
    let longer = String.◌∷◌ (digit (n % 10)) text in
    let rest = digits fuel (n / 10) longer in if n / 10 == 0 then longer else rest

-- 2^64 has twenty digits.
unfoldable pub decimal : ℕ → String
decimal n = digits 20 n ""

unfoldable pub read_digits : String → ℕ → ℕ
read_digits String.[] n = n
read_digits (String.◌∷◌ c s) n = read_digits s (n * 10 + (code c - b'0'))

pub code-digit : (d : ℕ) → d < 10 → code (digit d) ≡ b'0' + d
unfolding digit
code-digit zero h = refl
code-digit (suc zero) h = refl
code-digit (suc (suc zero)) h = refl
code-digit (suc (suc (suc zero))) h = refl
code-digit (suc (suc (suc (suc zero)))) h = refl
code-digit (suc (suc (suc (suc (suc zero))))) h = refl
code-digit (suc (suc (suc (suc (suc (suc zero)))))) h = refl
code-digit (suc (suc (suc (suc (suc (suc (suc zero))))))) h = refl
code-digit (suc (suc (suc (suc (suc (suc (suc (suc zero)))))))) h = refl
code-digit (suc (suc (suc (suc (suc (suc (suc (suc (suc zero))))))))) h = refl
code-digit (suc (suc (suc (suc (suc (suc (suc (suc (suc (suc n)))))))))) h = absurd (omega arith)

read_last :
    (n : ℕ) (text : String)
    → read_digits (String.◌∷◌ (digit (n % 10)) text) (n / 10) ≡ read_digits text n
unfolding read_digits
read_last n text = ap (read_digits text) (omega (arith, code-digit (n % 10) (omega arith)))

last :
    (n : ℕ) (text : String)
    → n / 10 ≡ 0
    → read_digits (String.◌∷◌ (digit (n % 10)) text) 0 ≡ read_digits text n
last n text e = ap (read_digits (String.◌∷◌ (digit (n % 10)) text)) (sym e) ∙ read_last n text

short :
    (fuel n : ℕ) (text : String)
    → n / 10 ≡ 0
    → digits (suc fuel) n text ≡ String.◌∷◌ (digit (n % 10)) text
unfolding digits
short fuel n text e = rw (e) refl

read-digits :
    (fuel n : ℕ) (text : String)
    → n < 10 ^ suc fuel
    → read_digits (digits (suc fuel) n text) 0 ≡ read_digits text n
unfolding digits
read-digits zero n text h = rw (short zero n text (omega arith)) (last n text (omega arith))
read-digits (suc fuel) n text h =
    let longer = String.◌∷◌ (digit (n % 10)) text in
    go (read-digits fuel (n / 10) longer (omega arith) ∙ read_last n text) (n / 10 == 0) refl
  where
    go :
        read_digits (digits (suc fuel) (n / 10) (String.◌∷◌ (digit (n % 10)) text)) 0
          ≡ read_digits text n
        → (b : Bool) → (n / 10 == 0) ≡ b
        → read_digits (digits (suc (suc fuel)) n text) 0 ≡ read_digits text n
    go more true e =
        rw (short (suc fuel) n text (ground (arith, e))) (last n text (ground (arith, e)))
    go more false e = rw (e) more

-- The text of a number tells it.
pub read-decimal : (n : ℕ) → n < 2 ^ 64 → read_digits (decimal n) 0 ≡ n
unfolding decimal read_digits
read-decimal n h = read-digits 19 n "" (omega arith)
