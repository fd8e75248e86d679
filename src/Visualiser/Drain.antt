-- ===== src/Visualiser/Drain.antt =====
-- The visualiser on a ring that stands still.
use hft_demo.Prelude.Word.{u64_mod}
use hft_demo.Ring.{ShmRing, success, empty}
use hft_demo.Visualiser.Defs.{Visualiser, turn, turns, line, payload_of}
use hft_demo.Visualiser.Layout.{PayloadFits, payload_of-payload_bytes}
use hft_demo.Visualiser.Batches.{Batches, step-Batches, join}
use hft_demo.Ring.Served.{Serves, read-served, read-ahead}
use hft_demo.Common.{TelemetryPayload, payload_bytes}
use hft_demo.Prelude.Mask.{pow2}
use hft_demo.Prelude.Text.{Text}
use mathlib.Core.Path.{subst}
use mathlib.Core.List.{append_assoc, append-nil}
use hft_demo.Prelude.{
  zero, suc, [], ◌∷◌, refl, sym, ap, ◌∙◌, ◌≡◌, ℕ, Build, List, length, ok, ◌+◌, All, ◌≤◌, ◌++◌, ◌<◌,
  get_elem?, map, drop, some, get_elem?-lt, arith, drop-past, get_elem?-cases, inl, inr, drop-next,
}

-- The telemetry ring: 2^k slots, which hold the records that are not a lap behind.
pub record Telemetry (k : ℕ) (ring : ShmRing) (sent : List TelemetryPayload) : Type 0 where
  pub slots : ring.capacity ≡ pow2 k
  pub serves : Serves payload_bytes k ring.mmap sent
  pub fit : All PayloadFits sent
  pub countable : length sent + 1 < u64_mod

-- All that was held or not yet read is posted.
abbrev pub Drained :
    Build → ShmRing → ℕ → Visualiser → List (List Text) → List Text → List TelemetryPayload → Type 0
Drained b ring n v posts held sent =
    (v' : Visualiser) × (posts' : List (List Text)) × (turns b ring n v ≡ ok v')
    × Batches v' posts' []
    × (v'.sequence_num ≡ length sent)
    × (join posts' ≡ (join posts ++ held) ++ map line (drop v.sequence_num sent))

turn-next :
    (b : Build) (k : ℕ) (ring : ShmRing) (sent : List TelemetryPayload) (v : Visualiser)
    (posts : List (List Text)) (held : List Text) (p : TelemetryPayload)
    → Telemetry k ring sent
    → Batches v posts held
    → length sent ≤ v.sequence_num + pow2 k
    → get_elem? sent v.sequence_num ≡ some p
    → (v' : Visualiser) × (posts' : List (List Text)) × (held' : List Text) × (turn b ring v
        ≡ ok v')
      × Batches v' posts' held'
      × (v'.sequence_num ≡ v.sequence_num + 1)
      × (join posts' ++ held' ≡ (join posts ++ held) ++ (line p ∷ []))
unfolding turn
turn-next b k ring sent v posts held p t h near at =
    let (s, rest, got, holds) =
      read-served payload_bytes b k v.sequence_num ring sent p t.slots t.serves near at in
    let same : payload_of s.bytes ≡ p =
      ap payload_of holds ∙ payload_of-payload_bytes p rest (t.fit v.sequence_num p at) in
    let within = get_elem?-lt sent v.sequence_num p at in
    let (v', posts', held', stepped, h', (numbered, lines)) =
      step-Batches b v (success s) posts held h (omega (arith, within, t.countable)) in
    (
      v',
      posts',
      held',
      rw got stepped,
      h',
      numbered,
      lines ∙ ap (λ q. (join posts ++ held) ++ (line q ∷ [])) same,
    )

turn-done :
    (b : Build) (k : ℕ) (ring : ShmRing) (sent : List TelemetryPayload) (v : Visualiser)
    (posts : List (List Text)) (held : List Text)
    → Telemetry k ring sent
    → Batches v posts held
    → v.sequence_num ≡ length sent
    → (v' : Visualiser) × (posts' : List (List Text)) × (turn b ring v ≡ ok v')
      × Batches v' posts' []
      × (v'.sequence_num ≡ length sent)
      × (join posts' ≡ join posts ++ held)
unfolding turn
turn-done b k ring sent v posts held t h done =
    let got =
      read-ahead payload_bytes b k v.sequence_num ring sent t.serves (omega (arith, done)) in
    let (v', posts', held', stepped, h', (numbered, lines, nothing)) =
      step-Batches b v empty posts held h (omega (arith, done, t.countable)) in
    (v', posts', rw got stepped, subst (Batches v' posts') nothing h', numbered ∙ done, lines)

-- From any batches, a telemetry ring that stands still, is not more than a lap ahead, and has the
-- slots of that lap mapped, is drained by one turn of the visualiser for each record not yet read,
-- and one more: each of their lines is posted once, in the order in which the records were written,
-- behind the lines that were held, and nothing is held.
pub turns-drain :
    (b : Build) (k left : ℕ) (ring : ShmRing) (sent : List TelemetryPayload) (v : Visualiser)
    (posts : List (List Text)) (held : List Text)
    → Telemetry k ring sent
    → Batches v posts held
    → v.sequence_num + left ≡ length sent
    → left ≤ pow2 k
    → Drained b ring (suc left) v posts held sent
unfolding turns
turns-drain b k zero ring sent v posts held t h here near =
    let at_end : v.sequence_num ≡ length sent = omega (arith, here) in
    let (v', posts', turned, h', numbered, lines) =
      turn-done b k ring sent v posts held t h at_end in
    let rest = drop-past sent v.sequence_num (omega (arith, at_end)) in
    (
      v',
      posts',
      rw turned refl,
      h',
      numbered,
      lines ∙ rw rest (sym (append-nil (join posts ++ held))),
    )
turns-drain b k (suc left) ring sent v posts held t h here near =
    elim (get_elem?-cases sent v.sequence_num) [
      | inl past ↦ absurd (omega (arith, past, here))
      | inr (p, at) ↦
          let (v1, posts1, held1, turned, h1, numbered1, lines1) =
            turn-next b k ring sent v posts held p t h (omega (arith, here, near)) at in
          let (v', posts', run, h', numbered, lines) =
            turns-drain b k left ring sent v1 posts1 held1 t h1 (omega (arith, numbered1, here))
              (omega (arith, near)) in
          let later : List Text = map line (drop (v.sequence_num + 1) sent) in
          (
            v',
            posts',
            rw turned run,
            h',
            numbered,
            lines
                ∙ (ap (λ n. (join posts1 ++ held1) ++ map line (drop n sent)) numbered1
                    ∙ (ap (λ ls. ls ++ later) lines1
                        ∙ (append_assoc (join posts ++ held) (line p ∷ []) later
                            ∙ ap (λ ps. (join posts ++ held) ++ map line ps)
                                (sym (drop-next sent v.sequence_num p at))))),
          )
    ]
