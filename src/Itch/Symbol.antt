-- ===== src/Itch/Symbol.antt =====
-- The symbol of a stock directory message: padding, decoding, trimming.
use hft_demo.Prelude.{
  ℕ, suc, zero, ◌-◌, ◌≤◌, ◌<◌, ◌≡◌, refl, ap, ◌∙◌, some, List, [], ◌∷◌, ◌++◌, arith, ok, length,
  take, replicate, length-append, length-replicate,
}
use hft_demo.Prelude.Bytes.{be_bytes, from_be, from_be-be_bytes, splice}
use hft_demo.Prelude.Word.{u16_mod}
use hft_demo.Prelude.Text.{
  Text, trim, from_utf8_lossy, IsGraphic, as_bytes-IsGraphic, from_utf8_lossy-pad, trim-pad,
}
use hft_demo.Itch.Defs.{stock_directory, parse_itch_message, parse_stock_directory}
use hft_demo.Itch.Encode.{stock_directory_packet, symbol_field, header}

take_all : {A : Type 0} (n : ℕ) (xs : List A) → length xs ≤ n → take n xs ≡ xs
take_all zero [] h = refl
take_all zero (x ∷ xs) h = absurd (omega arith)
take_all (suc n) [] h = refl
take_all (suc n) (x ∷ xs) h = ap (λ r. x ∷ r) (take_all n xs (omega arith))

-- What the field holds for a symbol that fits.
symbol_field-eq :
    (s : Text) → IsGraphic s → length s ≤ 8 → symbol_field s ≡ s ++ replicate (8 - length s) 32
unfolding symbol_field
symbol_field-eq s g h = rw (as_bytes-IsGraphic s g, take_all 8 s h)

symbol_field-length : (s : Text) → IsGraphic s → length s ≤ 8 → length (symbol_field s) ≡ 8
symbol_field-length s g h = rw (symbol_field-eq s g h) (
    omega (
      arith,
      length-append s (replicate (8 - length s) 32),
      length-replicate {A = ℕ} (8 - length s) 32,
    ))

-- The field is read back whole.
directory_field :
    (l : ℕ) (xs : List ℕ)
    → length xs ≡ 8
    → parse_itch_message (take 39 (splice (header b'R' l) 11 xs))
      ≡ ok (some (stock_directory (from_be (be_bytes 2 l)) (trim (from_utf8_lossy xs))))
unfolding parse_itch_message parse_stock_directory header be_bytes from_be
directory_field l (a ∷ b ∷ c ∷ d ∷ e ∷ f ∷ g ∷ h ∷ []) p = refl
directory_field l xs p = absurd (omega arith)

pub stock_directory_read :
    (l : ℕ) (s : Text)
    → l < u16_mod
    → IsGraphic s
    → length s ≤ 8
    → parse_itch_message (stock_directory_packet l s) ≡ ok (some (stock_directory l s))
unfolding stock_directory_packet
stock_directory_read l s hl g h =
    directory_field l (symbol_field s) (symbol_field-length s g h)
    ∙ (λ k. ok (some (stock_directory (from_be-be_bytes 2 l hl k) (symbol k))))
  where
    symbol : trim (from_utf8_lossy (symbol_field s)) ≡ s
    symbol =
        rw (symbol_field-eq s g h, from_utf8_lossy-pad s (8 - length s) g)
          (trim-pad s (8 - length s) g)
