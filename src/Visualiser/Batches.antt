-- ===== src/Visualiser/Batches.antt =====
-- The batches of the visualiser: what was posted, and what waits in the buffer.
use hft_demo.Prelude.Word.{u64_mod, add_word-ok}
use hft_demo.Visualiser.Defs.{Visualiser, step, line, payload_of, flush_to_influx, batch_sizelimit}
use hft_demo.Ring.{ReadResult, success, empty, reset, overlapped, interrupted, Slot}
use hft_demo.Prelude.Text.{Text}
use mathlib.Core.List.{append_assoc, map-append, append-nil}
use hft_demo.Prelude.{
  [], ◌∷◌, refl, sym, ap, ◌∙◌, ◌≡◌, List, Build, ◌+◌, ◌++◌, All, ok, map, ◌<◌, List-cases, length,
  arith, inl, inr, length-append, ◌≤◌, Bool-cases, ltb, ℕ, All-snoc,
}

module _ {ℓ} {A : Type ℓ} where
  unfoldable pub join : List (List A) → List A
  join [] = []
  join (xs ∷ xss) = xs ++ join xss

  pub join-snoc : (xss : List (List A)) (xs : List A) → join (xss ++ (xs ∷ [])) ≡ join xss ++ xs
  unfolding join
  join-snoc [] xs = append-nil xs
  join-snoc (ys ∷ yss) xs =
      ap (λ r. ys ++ r) (join-snoc yss xs) ∙ sym (append_assoc ys (join yss) xs)

-- A post holds at least one line, and at most one more than the limit.
abbrev pub IsPost : List Text → Type 0
IsPost post = (0 < length post) × (length post ≤ batch_sizelimit + 1)

-- The lines that were posted, post by post, and the lines held, of which the buffer and the counter
-- are made.
pub record Batches (v : Visualiser) (posts : List (List Text)) (held : List Text) : Type 0 where
  pub bodies : v.posted ≡ map join posts
  pub buffered : v.batch_buffer ≡ join held
  pub counted : v.records_in_batch ≡ length held
  pub bounded : length held ≤ batch_sizelimit
  pub sizes : All IsPost posts

flushed :
    (v : Visualiser) (posts : List (List Text)) (held : List Text)
    → v.posted ≡ map join posts
    → v.batch_buffer ≡ join held
    → All IsPost posts
    → IsPost held
    → Batches (flush_to_influx v) (posts ++ (held ∷ [])) []
unfolding join
flushed v posts held bodies buffered sizes one = record {
  bodies =
      ap (λ bs. bs ++ (v.batch_buffer ∷ [])) bodies
      ∙ (ap (λ t. map join posts ++ (t ∷ [])) buffered ∙ sym (map-append join posts (held ∷ [])));
  buffered = refl;
  counted = refl;
  bounded = omega arith;
  sizes = All-snoc posts held sizes one;
}

-- What a turn does to the lines, by the answer of the ring: the line of the message joins them; all
-- that are held are posted; what is held is dropped; or nothing, but for the number asked for next.
abbrev pub After :
    ReadResult
    → (before after : Visualiser) → (posts : List (List Text)) → (held : List Text)
    → (posts' : List (List Text)) → (held' : List Text) → Type 0
After (success s) v v' posts held posts' held' =
    (v'.sequence_num ≡ v.sequence_num + 1)
    × (join posts' ++ held' ≡ (join posts ++ held) ++ (line (payload_of s.bytes) ∷ []))
After empty v v' posts held posts' held' =
    (v'.sequence_num ≡ v.sequence_num) × (join posts' ≡ join posts ++ held) × (held' ≡ [])
After reset v v' posts held posts' held' = (v'.sequence_num ≡ 0) × (posts' ≡ posts) × (held' ≡ [])
After (overlapped n) v v' posts held posts' held' =
    (v'.sequence_num ≡ n) × (posts' ≡ posts) × (held' ≡ held)
After (interrupted n) v v' posts held posts' held' =
    (v'.sequence_num ≡ n) × (posts' ≡ posts) × (held' ≡ held)

abbrev pub Stepped : Build → Visualiser → ReadResult → List (List Text) → List Text → Type 0
Stepped b v result posts held =
    (v' : Visualiser) × (posts' : List (List Text)) × (held' : List Text) × (step b v result
      ≡ ok v')
    × Batches v' posts' held'
    × After result v v' posts held posts' held'

taken :
    (b : Build) (v : Visualiser) (s : Slot) (posts : List (List Text)) (held : List Text)
    → Batches v posts held
    → v.sequence_num + 1 < u64_mod
    → Stepped b v (success s) posts held
unfolding step
taken b v s posts held h more =
    let l : Text = line (payload_of s.bytes) in
    let v1 : Visualiser = record v {
      sequence_num = v.sequence_num + 1;
      batch_buffer = v.batch_buffer ++ l;
      records_in_batch = v.records_in_batch + 1;
    } in
    let held1 : List Text = held ++ (l ∷ []) in
    let grown : length held1 ≡ length held + 1 = length-append {0} held (l ∷ []) in
    let buffered : v1.batch_buffer ≡ join held1 =
      ap (λ t. t ++ l) h.buffered ∙ sym (join-snoc held l) in
    let counting =
      add_word-ok u64_mod b v.records_in_batch 1 (omega (arith, h.counted, h.bounded)) in
    let numbering = add_word-ok u64_mod b v.sequence_num 1 more in
    let all : join posts ++ held1 ≡ (join posts ++ held) ++ (l ∷ []) =
      sym (append_assoc (join posts) held (l ∷ [])) in
    elim (Bool-cases (ltb batch_sizelimit (v.records_in_batch + 1))) [
      | inl full ↦ (
        flush_to_influx v1,
        posts ++ (held1 ∷ []),
        [],
        rw (counting, numbering, full) refl,
        flushed v1 posts held1 h.bodies buffered h.sizes
            (ground (arith, grown, h.bounded), ground (arith, grown, h.bounded)),
        (refl, append-nil (join (posts ++ (held1 ∷ []))) ∙ (join-snoc posts held1 ∙ all)),
      )
      | inr room ↦ (
        v1,
        posts,
        held1,
        rw (counting, numbering, room) refl,
        record {
          bodies = h.bodies;
          buffered = buffered;
          counted = omega (arith, grown, h.counted);
          bounded = ground (arith, grown, room, h.counted);
          sizes = h.sizes;
        },
        (refl, all),
      )
    ]

idle :
    (b : Build) (v : Visualiser) (posts : List (List Text)) (held : List Text)
    → Batches v posts held
    → Stepped b v empty posts held
unfolding step
idle b v posts held h = elim (List-cases held) [
  | inl nothing ↦ (
    v,
    posts,
    held,
    ground (arith, h.counted, nothing),
    h,
    (refl, sym (ap (λ t. join posts ++ t) nothing ∙ append-nil (join posts)), nothing),
  )
  | inr (l, ls, some_held) ↦
      let size = ap length some_held in
      (
        flush_to_influx v,
        posts ++ (held ∷ []),
        [],
        ground (arith, h.counted, some_held),
        flushed v posts held h.bodies h.buffered h.sizes
            (omega (arith, size), omega (arith, h.bounded)),
        (refl, join-snoc posts held, refl),
      )
]

moved :
    (v : Visualiser) (n : ℕ) (posts : List (List Text)) (held : List Text)
    → Batches v posts held
    → Batches (record v { sequence_num = n }) posts held
moved v n posts held h = record {
  bodies = h.bodies;
  buffered = h.buffered;
  counted = h.counted;
  bounded = h.bounded;
  sizes = h.sizes;
}

-- A turn of the visualiser, with a sequence number that can still grow, succeeds in both builds,
-- whatever the ring answers. The buffer holds the lines not yet posted, at most 5000; each post is
-- of 1 to 5001 lines; and no line is lost or repeated, but for those held when the ring answers
-- "reset".
pub step-Batches :
    (b : Build) (v : Visualiser) (result : ReadResult) (posts : List (List Text)) (held : List Text)
    → Batches v posts held
    → v.sequence_num + 1 < u64_mod
    → Stepped b v result posts held
unfolding step join
step-Batches b v (success s) posts held h more = taken b v s posts held h more
step-Batches b v empty posts held h more = idle b v posts held h
step-Batches b v reset posts held h more = (
  record v { sequence_num = 0; batch_buffer = []; records_in_batch = 0 },
  posts,
  [],
  refl,
  record {
    bodies = h.bodies;
    buffered = refl;
    counted = refl;
    bounded = omega arith;
    sizes = h.sizes;
  },
  (refl, refl, refl),
)
step-Batches b v (overlapped n) posts held h more =
    (record v { sequence_num = n }, posts, held, refl, moved v n posts held h, (refl, refl, refl))
step-Batches b v (interrupted n) posts held h more =
    (record v { sequence_num = n }, posts, held, refl, moved v n posts held h, (refl, refl, refl))
