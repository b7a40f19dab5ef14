-- ===== src/Examples/Words.antt =====
-- The messages of the example programs: `to_be_bytes` (examples/client.rs, examples/server.rs).
use mathlib.Core.List.{map-append}
use ibv.Prelude.{
  ℕ, zero, suc, ◌+◌, ◌*◌, ◌^◌, ◌<◌, ◌≡◌, refl, ap, ◌∙◌, List, [], ◌∷◌, ◌++◌, map, length, u32_mod,
  arith,
}
use ibv.Examples.{to_be_bytes}

-- `u32::from_be_bytes`
abbrev pub from_be_bytes : List ℕ → ℕ
from_be_bytes [] = 0
from_be_bytes (b ∷ bs) = b * 2 ^ (8 * length bs) + from_be_bytes bs

pub from_be_bytes-to_be_bytes : (n : ℕ) → n < u32_mod → from_be_bytes (to_be_bytes n) ≡ n
unfolding to_be_bytes
from_be_bytes-to_be_bytes n h = omega arith

pub length-to_be_bytes : (n : ℕ) → length (to_be_bytes n) ≡ 4
unfolding to_be_bytes
length-to_be_bytes n = refl

-- the numbers from `from` on, `n` of them
abbrev pub numbers : ℕ → ℕ → List ℕ
numbers from zero = []
numbers from (suc n) = numbers from n ++ (from + n) ∷ []

-- their messages
abbrev pub words : ℕ → ℕ → List (List ℕ)
words from n = map to_be_bytes (numbers from n)

pub words-add_one : (from n : ℕ) → words from (n + 1) ≡ words from n ++ to_be_bytes (from + n) ∷ []
words-add_one from n =
    ap (words from) one ∙ map-append to_be_bytes (numbers from n) ((from + n) ∷ [])
  where
    one : n + 1 ≡ suc n
    one = omega arith
