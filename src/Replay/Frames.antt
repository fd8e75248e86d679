-- ===== src/Replay/Frames.antt =====
-- The file that holds given messages, and what its replay does.
use hft_demo.Market.{MessageAnalyticsWriter, ExchangeGateway, Running, handle_raw_packet}
use hft_demo.Strategies.{Strategy}
use hft_demo.Prelude.Float.{FloatOps}
use native.Mathlib.Nat.{suc-add}
use hft_demo.Prelude.Word.{u16_mod, add_word, u64_mod}
use hft_demo.Prelude.Bytes.{be_bytes, from_be, length-be_bytes}
use hft_demo.Replay.File.{next_message, replay}
use hft_demo.Prelude.{
  ℕ, none, some, [], refl, sym, zero, suc, List, get_or, ◌∷◌, ◌<◌, ◌++◌, ◌≡◌, length, ap, ◌+◌,
  arith, length-append, ◌≤◌, ◌⊎◌, Build, ◌>>=◌, Outcome, Option, ok, ◌∙◌, bind-ext, drop-append,
  take-append,
}
use mathlib.Core.List.{append_assoc}

-- Each message behind its length.
unfoldable pub frames : List (List ℕ) → List ℕ
frames [] = []
frames (p ∷ ps) = be_bytes 2 (length p) ++ (p ++ frames ps)

-- Messages of one byte at least, whose length fits the two bytes.
abbrev pub AreMessages : List (List ℕ) → Type 0
AreMessages [] = Unit {0}
AreMessages (p ∷ ps) = (0 < length p) × (length p < u16_mod) × AreMessages ps

get_or-append : (xs ys : List ℕ) (i : ℕ) → get_or (xs ++ ys) (length xs + i) 0 ≡ get_or ys i 0
get_or-append [] ys i = ap (λ k. get_or ys k 0) (omega arith)
get_or-append (x ∷ xs) ys i = rw suc-add (get_or-append xs ys i)

-- The loop finds a message where one stands.
next_message-frame :
    (before p after : List ℕ)
    → 0 < length p
    → length p < u16_mod
    → next_message (before ++ (be_bytes 2 (length p) ++ (p ++ after))) (length before)
      ≡ some (p, length before + 2 + length p)
unfolding next_message be_bytes from_be
next_message-frame before p after some_bytes short =
    let rest : List ℕ = be_bytes 2 (length p) ++ (p ++ after) in
    ground (
      arith,
      get_or-append before rest 0,
      get_or-append before rest 1,
      drop-append before rest 2,
      take-append p after,
      length-append {0} before rest,
      length-append {0} p after,
    )

-- How many messages the loop finds in a file from a cursor on.
unfoldable pub messages_in : ℕ → List ℕ → ℕ → ℕ
messages_in zero file cursor = 0
messages_in (suc fuel) file cursor = elim (next_message file cursor) [
  | none ↦ 0
  | some (_, next) ↦ suc (messages_in fuel file next)
]

-- What is left of a file that ends in the middle of a message: no length, or too few bytes behind it.
abbrev pub Partial : List ℕ → Type 0
Partial tail =
    (length tail ≤ 2) ⊎ (length tail < 2 + from_be (get_or tail 0 0 ∷ get_or tail 1 0 ∷ []))

next_message-Partial :
    (before tail : List ℕ) → Partial tail → next_message (before ++ tail) (length before) ≡ none
unfolding next_message
next_message-Partial before tail h =
    ground (
      arith,
      get_or-append before tail 0,
      get_or-append before tail 1,
      length-append {0} before tail,
    )

case-ext {ℓ κ} :
    {A : Type ℓ} {B : Type κ} (o : Option A) (d : B) (k l : A → B)
    → ((a : A) → k a ≡ l a)
    → elim o [ none ↦ d | some a ↦ k a ] ≡ elim o [ none ↦ d | some a ↦ l a ]
case-ext none d k l same = refl
case-ext (some a) d k l same = same a

module _ (f : FloatOps) (st : Strategy) (wr : MessageAnalyticsWriter) (gw : ExchangeGateway) where
  -- The messages of a list, one after the other, with their count.
  unfoldable pub send_all :
      Build → ℕ → List (List ℕ) → ℕ → Running f st wr gw → Outcome (Option (ℕ × Running f st wr gw))
  send_all b poll_fuel [] count r = ok (some (count, r))
  send_all b poll_fuel (p ∷ ps) count r = do
    answer ← handle_raw_packet f st wr gw b poll_fuel r p
    count' ← add_word u64_mod b count 1
    elim answer [ none ↦ ok none | some r' ↦ send_all b poll_fuel ps count' r' ]

  pub one_turn :
      (b : Build) (poll_fuel fuel : ℕ) (file p : List ℕ) (cursor next count : ℕ)
      (r : Running f st wr gw)
      → next_message file cursor ≡ some (p, next)
      → replay f st wr gw b poll_fuel (suc fuel) file cursor count r ≡ (do
        answer ← handle_raw_packet f st wr gw b poll_fuel r p
        count' ← add_word u64_mod b count 1
        elim answer [
          | none ↦ ok none
          | some r' ↦ replay f st wr gw b poll_fuel fuel file next count' r'
        ])
  unfolding replay
  one_turn b poll_fuel fuel file p cursor next count r e = rw (e, replay) refl

  pub last_turn :
      (b : Build) (poll_fuel fuel : ℕ) (file : List ℕ) (cursor count : ℕ) (r : Running f st wr gw)
      → next_message file cursor ≡ none
      → replay f st wr gw b poll_fuel (suc fuel) file cursor count r ≡ ok (some (count, r))
  unfolding replay
  last_turn b poll_fuel fuel file cursor count r e = rw (e, replay) refl

  -- The replay of a file that holds given messages, each of one byte at least and behind its
  -- length, and perhaps the beginning of another, is the market's handling of these messages in
  -- their order, with their count; fuel beyond their number is enough.
  pub replay-frames :
      (b : Build) (poll_fuel fuel : ℕ) (before : List ℕ) (packets : List (List ℕ)) (tail : List ℕ)
      (count : ℕ) (r : Running f st wr gw)
      → AreMessages packets
      → Partial tail
      → length packets < fuel
      → replay f st wr gw b poll_fuel fuel
          (before ++ (frames packets ++ tail))
          (length before)
          count
          r
        ≡ send_all b poll_fuel packets count r
  unfolding frames send_all
  replay-frames b poll_fuel zero before packets tail count r h part more =
      absurd (omega (arith, more))
  replay-frames b poll_fuel (suc fuel) before [] tail count r h part more =
      last_turn b poll_fuel fuel (before ++ tail) (length before) count r
        (next_message-Partial before tail part)
  replay-frames b poll_fuel (suc fuel) before (p ∷ ps) tail count r h part more =
      let after : List ℕ = frames ps ++ tail in
      let size : List ℕ = be_bytes 2 (length p) in
      let before' : List ℕ = before ++ (size ++ p) in
      let whole : before ++ ((size ++ (p ++ frames ps)) ++ tail)
          ≡ before ++ (size ++ (p ++ after)) =
        ap (λ t. before ++ t)
          (append_assoc size (p ++ frames ps) tail
            ∙ ap (λ t. size ++ t) (append_assoc p (frames ps) tail)) in
      let split : before ++ (size ++ (p ++ after)) ≡ before' ++ after = sym (
        append_assoc before (size ++ p) after
        ∙ ap (λ t. before ++ t) (append_assoc size p after)) in
      let moved : length before' ≡ length before + 2 + length p = omega (
        arith,
        length-append {0} before (size ++ p),
        length-append {0} size p,
        length-be_bytes 2 (length p),
      ) in
      let turn =
        one_turn b poll_fuel fuel (before ++ (size ++ (p ++ after))) p (length before)
          (length before + 2 + length p) count r (next_message-frame before p after h.0 h.1) in
      let rest : (count' : ℕ) (r' : Running f st wr gw)
          → replay f st wr gw b poll_fuel fuel (before ++ (size ++ (p ++ after)))
              (length before + 2 + length p) count' r'
            ≡ send_all b poll_fuel ps count' r' =
        λ count' r'.
          ap
            (λ file.
              replay f st wr gw b poll_fuel fuel file (length before + 2 + length p) count' r')
            split
          ∙ (ap (λ c. replay f st wr gw b poll_fuel fuel (before' ++ after) c count' r') (sym moved)
              ∙ replay-frames b poll_fuel fuel before' ps tail count' r' h.2 part
                  (omega (arith, more))) in
      (ap (λ file. replay f st wr gw b poll_fuel (suc fuel) file (length before) count r) whole
        ∙ turn)
      ∙ bind-ext (handle_raw_packet f st wr gw b poll_fuel r p) _ _ (λ answer.
        bind-ext (add_word u64_mod b count 1) _ _
          (λ count'. case-ext answer (ok none) _ _ (rest count')))
