-- ===== src/Prelude/Layout.antt =====
-- Words in memory, least significant byte first, at an offset from the start of a struct.
use mathlib.Core.Path.{subst}
use hft_demo.Prelude.Bytes.{le_bytes, from_le, length-le_bytes, from_le-le_bytes, span}
use hft_demo.Prelude.{take, drop, ◌≡◌, ℕ, List, ◌+◌, ◌<◌, ◌++◌, ap, take-append, drop-append, ◌∙◌}

-- The word of `w` bytes at the offset `lo`.
unfoldable pub word_at : (w lo : ℕ) → List ℕ → ℕ
unfolding from_le
word_at w lo bytes = from_le (take w (drop lo bytes))

pub word_at-here : (w v : ℕ) (rest : List ℕ) → v < span w → word_at w 0 (le_bytes w v ++ rest) ≡ v
unfolding word_at
word_at-here w v rest fits =
    let first : take w (le_bytes w v ++ rest) ≡ le_bytes w v =
      subst (λ n. take n (le_bytes w v ++ rest) ≡ le_bytes w v) (length-le_bytes w v)
        (take-append (le_bytes w v) rest) in
    ap from_le first ∙ from_le-le_bytes w v fits

pub word_at-there :
    (w n lo v : ℕ) (rest : List ℕ) → word_at w (n + lo) (le_bytes n v ++ rest) ≡ word_at w lo rest
unfolding word_at
word_at-there w n lo v rest =
    ap (λ bytes. from_le (take w bytes))
      (subst (λ k. drop (k + lo) (le_bytes n v ++ rest) ≡ drop lo rest) (length-le_bytes n v)
        (drop-append (le_bytes n v) rest lo))
