-- ===== src/Prelude/Text.antt =====
-- Text as a list of code points, with what the program uses of the standard library's strings:
-- lossy decoding of UTF-8, its encoding, and trimming.
use Prim.Native.String.{String}
use Prim.Native.Char.{code}
use mathlib.Core.List.{reverse, reverse-append, reverse-reverse, reverse-cons, append-nil}
use hft_demo.Prelude.{
  zero, suc, ap, sym, ◌∙◌, replicate, lt→ltb, ℕ, ◌+◌, ◌-◌, ◌*◌, ◌/◌, ◌%◌, ◌<◌, ◌≡◌, refl, Bool,
  true, false, ◌&&◌, ◌||◌, List, [], ◌∷◌, ◌++◌, arith, ltb, leb, ◌==◌, if◌then◌else◌,
}

abbrev pub Text : Type 0
Text = List ℕ

-- The text of a string literal.
abbrev pub text : String → Text
text String.[] = []
text (String.◌∷◌ c s) = code c ∷ text s

abbrev between : ℕ → ℕ → ℕ → Bool
between lo hi b = leb lo b && leb b hi

-- Unicode's White_Space.
unfoldable pub is_whitespace : ℕ → Bool
is_whitespace c =
    between 9 13 c
    || c == 32
    || c == 0x85
    || c == 0xa0
    || c == 0x1680
    || between 0x2000 0x200a c
    || c == 0x2028
    || c == 0x2029
    || c == 0x202f
    || c == 0x205f
    || c == 0x3000

-- `trim_start_matches` and `trim_matches` for a class of characters.
unfoldable pub trim_start : (ℕ → Bool) → Text → Text
trim_start p [] = []
trim_start p (c ∷ cs) = let rest = trim_start p cs in if p c then rest else c ∷ cs

unfoldable pub trim_matches : (ℕ → Bool) → Text → Text
unfolding trim_start
trim_matches p cs = reverse (trim_start p (reverse (trim_start p cs)))

unfoldable pub trim : Text → Text
unfolding trim_matches
trim = trim_matches is_whitespace

unfoldable pub text_eq : Text → Text → Bool
text_eq [] [] = true
text_eq [] (d ∷ ds) = false
text_eq (c ∷ cs) [] = false
text_eq (c ∷ cs) (d ∷ ds) = c == d && text_eq cs ds

-- The decoder's state: at the start of a character, or with `need` bytes to come, the next of which
-- must lie between `lo` and `hi`.
pub data Decoder : Type 0 where
  start : Decoder
  more : (need lo hi acc : ℕ) → Decoder

abbrev replacement : ℕ
replacement = 0xfffd

decode_start : ℕ → List ℕ × Decoder
decode_start b =
    if ltb b 0x80
    then (b ∷ [], start)
    else if between 0xc2 0xdf b
    then ([], more 1 0x80 0xbf (b - 0xc0))
    else if b == 0xe0
    then ([], more 2 0xa0 0xbf 0)
    else if b == 0xed
    then ([], more 2 0x80 0x9f 13)
    else if between 0xe1 0xef b
    then ([], more 2 0x80 0xbf (b - 0xe0))
    else if b == 0xf0
    then ([], more 3 0x90 0xbf 0)
    else if between 0xf1 0xf3 b
    then ([], more 3 0x80 0xbf (b - 0xf0))
    else if b == 0xf4
    then ([], more 3 0x80 0x8f 4)
    else (replacement ∷ [], start)

decode_step : Decoder → ℕ → List ℕ × Decoder
unfolding decode_start
decode_step start b = decode_start b
decode_step (more need lo hi acc) b =
    if between lo hi b
    then if need == 1
      then ((acc * 64 + (b - 0x80)) ∷ [], start)
      else ([], more (need - 1) 0x80 0xbf (acc * 64 + (b - 0x80)))
    else (replacement ∷ (decode_start b).0, (decode_start b).1)

decode_from : Decoder → List ℕ → Text
unfolding decode_step
decode_from start [] = []
decode_from (more need lo hi acc) [] = replacement ∷ []
decode_from d (b ∷ bs) = (decode_step d b).0 ++ decode_from (decode_step d b).1 bs

-- `String::from_utf8_lossy`.
unfoldable pub from_utf8_lossy : List ℕ → Text
unfolding decode_from
from_utf8_lossy = decode_from start

utf8_char : ℕ → List ℕ
utf8_char c =
    if ltb c 0x80
    then c ∷ []
    else if ltb c 0x800
    then (0xc0 + c / 64) ∷ (0x80 + c % 64) ∷ []
    else if ltb c 0x10000
    then (0xe0 + c / 4096) ∷ (0x80 + c / 64 % 64) ∷ (0x80 + c % 64) ∷ []
    else (0xf0 + c / 262144) ∷ (0x80 + c / 4096 % 64) ∷ (0x80 + c / 64 % 64) ∷ (0x80 + c % 64) ∷ []

-- `str::as_bytes`.
unfoldable pub as_bytes : Text → List ℕ
unfolding utf8_char
as_bytes [] = []
as_bytes (c ∷ cs) = utf8_char c ++ as_bytes cs

-- Printable ASCII, which is what tickers are written in.
abbrev pub IsGraphic : Text → Type 0
IsGraphic [] = Unit {0}
IsGraphic (c ∷ cs) = (32 < c) × (c < 127) × IsGraphic cs

pub text_eq_refl : (cs : Text) → text_eq cs cs ≡ true
unfolding text_eq
text_eq_refl [] = refl
text_eq_refl (c ∷ cs) = ground (arith, text_eq_refl cs)

pub text_eq→eq : (cs ds : Text) → text_eq cs ds ≡ true → cs ≡ ds
unfolding text_eq
text_eq→eq [] [] h = refl
text_eq→eq [] (d ∷ ds) h = ground arith
text_eq→eq (c ∷ cs) [] h = ground arith
text_eq→eq (c ∷ cs) (d ∷ ds) h = ground (arith, text_eq→eq cs ds)

-- ASCII text is its own encoding.
pub as_bytes-IsGraphic : (cs : Text) → IsGraphic cs → as_bytes cs ≡ cs
unfolding as_bytes
as_bytes-IsGraphic [] g = refl
as_bytes-IsGraphic (c ∷ cs) g = ground (arith, as_bytes-IsGraphic cs g.2)

decode_ascii :
    (b : ℕ) (bs : List ℕ) → b < 128 → decode_from start (b ∷ bs) ≡ b ∷ decode_from start bs
unfolding decode_from
decode_ascii b bs h = rw (lt→ltb b 128 h)

decode_spaces : (n : ℕ) → decode_from start (replicate n 32) ≡ replicate n 32
unfolding decode_from
decode_spaces zero = refl
decode_spaces (suc n) =
    decode_ascii 32 (replicate n 32) (omega arith) ∙ ap (λ r. 32 ∷ r) (decode_spaces n)

pub from_utf8_lossy-pad :
    (cs : Text) (n : ℕ)
    → IsGraphic cs
    → from_utf8_lossy (cs ++ replicate n 32) ≡ cs ++ replicate n 32
unfolding from_utf8_lossy
from_utf8_lossy-pad [] n g = decode_spaces n
from_utf8_lossy-pad (c ∷ cs) n g =
    decode_ascii c _ (omega arith) ∙ ap (λ r. c ∷ r) (from_utf8_lossy-pad cs n g.2)

graphic_is_no_space : (c : ℕ) → 32 < c → c < 127 → is_whitespace c ≡ false
unfolding is_whitespace
graphic_is_no_space c lo hi = ground arith

space_is_whitespace : is_whitespace 32 ≡ true
unfolding is_whitespace
space_is_whitespace = refl

trim_start-spaces :
    (n : ℕ) (cs : Text)
    → trim_start is_whitespace (replicate n 32 ++ cs) ≡ trim_start is_whitespace cs
unfolding trim_start
trim_start-spaces zero cs = refl
trim_start-spaces (suc n) cs = rw space_is_whitespace (trim_start-spaces n cs)

-- A text that is empty or starts with a printable character.
abbrev StartsGraphic : Text → Type 0
StartsGraphic [] = Unit {0}
StartsGraphic (c ∷ cs) = (32 < c) × (c < 127)

trim_start-StartsGraphic : (cs : Text) → StartsGraphic cs → trim_start is_whitespace cs ≡ cs
unfolding trim_start
trim_start-StartsGraphic [] g = refl
trim_start-StartsGraphic (c ∷ cs) g = rw (graphic_is_no_space c g.0 g.1)

IsGraphic-append : (cs ds : Text) → IsGraphic cs → IsGraphic ds → IsGraphic (cs ++ ds)
IsGraphic-append [] ds g h = h
IsGraphic-append (c ∷ cs) ds g h = (g.0, g.1, IsGraphic-append cs ds g.2 h)

reverse-IsGraphic : (cs : Text) → IsGraphic cs → IsGraphic (reverse cs)
reverse-IsGraphic [] g = tt
reverse-IsGraphic (c ∷ cs) g =
    rw (reverse-cons c cs)
      (IsGraphic-append (reverse cs) (c ∷ []) (reverse-IsGraphic cs g.2) (g.0, g.1, tt))

IsGraphic-StartsGraphic : (cs : Text) → IsGraphic cs → StartsGraphic cs
IsGraphic-StartsGraphic [] g = tt
IsGraphic-StartsGraphic (c ∷ cs) g = (g.0, g.1)

replicate-snoc : (n : ℕ) (c : ℕ) → replicate n c ++ (c ∷ []) ≡ c ∷ replicate n c
replicate-snoc zero c = refl
replicate-snoc (suc n) c = ap (λ r. c ∷ r) (replicate-snoc n c)

reverse-replicate : (n c : ℕ) → reverse (replicate n c) ≡ replicate n c
reverse-replicate zero c = refl
reverse-replicate (suc n) c =
    rw (reverse-cons c (replicate n c), reverse-replicate n c) (replicate-snoc n c)

-- Trailing spaces go.
trim_end-pad :
    (cs : Text) (n : ℕ)
    → IsGraphic cs
    → reverse (trim_start is_whitespace (reverse (cs ++ replicate n 32))) ≡ cs
trim_end-pad cs n g =
    rw
      (
        reverse-append cs (replicate n 32),
        reverse-replicate n 32,
        trim_start-spaces n (reverse cs),
        trim_start-StartsGraphic (reverse cs)
            (IsGraphic-StartsGraphic (reverse cs) (reverse-IsGraphic cs g)),
      )
      (reverse-reverse cs)

trim_lem :
    (cs : Text)
    → trim cs ≡ reverse (trim_start is_whitespace (reverse (trim_start is_whitespace cs)))
unfolding trim
trim_lem cs = refl

-- A printable text is what is left of it, padded with spaces.
pub trim-pad : (cs : Text) (n : ℕ) → IsGraphic cs → trim (cs ++ replicate n 32) ≡ cs
unfolding trim_start
trim-pad [] n g = rw (trim_lem, trim_start-pad) refl
  where
    trim_start-pad : trim_start is_whitespace (replicate n 32) ≡ []
    trim_start-pad =
        ap (trim_start is_whitespace) (sym (append-nil (replicate n 32)))
        ∙ trim_start-spaces n []
        ∙ trim_start-StartsGraphic [] tt
trim-pad (c ∷ cs) n g =
    rw (trim_lem, trim_start-StartsGraphic (c ∷ (cs ++ replicate n 32)) (g.0, g.1))
      (trim_end-pad (c ∷ cs) n g)

smile :
    from_utf8_lossy (0xf0 ∷ 0x9f ∷ 0x98 ∷ 0x80 ∷ 0xff ∷ 0xe2 ∷ 0x82 ∷ 65 ∷ [])
    ≡ 0x1f600 ∷ 0xfffd ∷ 0xfffd ∷ 65 ∷ []
unfolding from_utf8_lossy
smile = refl

-- `str::contains`.
unfoldable pub starts_with : Text → Text → Bool
starts_with [] t = true
starts_with (c ∷ cs) [] = false
starts_with (c ∷ cs) (d ∷ ds) = c == d && starts_with cs ds

unfoldable pub has_text : Text → Text → Bool
unfolding starts_with
has_text part [] = starts_with part []
has_text part (c ∷ cs) = starts_with part (c ∷ cs) || has_text part cs
