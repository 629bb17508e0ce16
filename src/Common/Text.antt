-- ===== src/Common/Text.antt =====
-- Bytes, and the reading of a buffer as a C string: a `char *` stands for the bytes before the
-- first NUL.
use Prim.Native.Char.{code}
use Prim.Native.String.{String}
use Prim.Native.Nat.{ℕ, ◌≤◌}
use mathlib.Core.Path.{◌≡◌, refl}
use mathlib.Core.Logic.{◌≢◌}
use mathlib.Core.Bool.{Bool, true, false, ◌&&◌}
use mathlib.Core.List.{List, [], ◌∷◌, ◌++◌}
use native.Mathlib.Omega.{arith}
use pdo_duckdb_php.Common.Tests.{◌==◌, if◌then◌else◌}
use pdo_duckdb_php.Common.Lists.{All, length, take}

abbrev pub Bytes : Type 0
Bytes = List ℕ

-- The code points of a text, which are its bytes where it is ASCII.
abbrev pub codes : String → Bytes
codes String.[] = []
codes (String.◌∷◌ c s) = code c ∷ codes s

-- What a `const char *` shows: the bytes before the first NUL.
unfoldable pub c_str : Bytes → Bytes
c_str [] = []
c_str (c ∷ cs) = if c == 0 then [] else c ∷ c_str cs

abbrev pub NulFree : Bytes → Type 0
NulFree = All (λ c. c ≢ 0)

-- Equality of two C strings (`strcmp(a, b) == 0`).
unfoldable pub bytes_eq : Bytes → Bytes → Bool
bytes_eq [] [] = true
bytes_eq (x ∷ xs) (y ∷ ys) = x == y && bytes_eq xs ys
bytes_eq _ _ = false

-- A terminated buffer with no other NUL shows all of its bytes.
pub c_str_terminated : (s rest : Bytes) → NulFree s → c_str (s ++ (0 ∷ rest)) ≡ s
unfolding c_str
c_str_terminated [] rest h = refl
c_str_terminated (c ∷ s) rest h = ground (arith, c_str_terminated s rest h.1)

pub c_str-NulFree : (s : Bytes) → NulFree (c_str s)
unfolding c_str
c_str-NulFree [] = tt
c_str-NulFree (c ∷ s) = ground (arith, c_str-NulFree s)

pub length-c_str : (s : Bytes) → length (c_str s) ≤ length s
unfolding c_str
length-c_str [] = omega arith
length-c_str (c ∷ s) = ground (arith, length-c_str s)

pub NulFree-take : (n : ℕ) (s : Bytes) → NulFree s → NulFree (take n s)
NulFree-take ℕ.zero s h = tt
NulFree-take (ℕ.suc n) [] h = tt
NulFree-take (ℕ.suc n) (c ∷ s) h = (h.0, NulFree-take n s h.1)
