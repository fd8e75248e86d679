-- ===== src/Visualiser/Feed.antt =====
-- The telemetry of the replay on its way to the database: the replay's writer and the visualiser's
-- reader together.
use mathlib.Core.List.{append-nil}
use hft_demo.Prelude.Word.{u64_mod}
use hft_demo.Ring.{ShmRing, slot_size}
use hft_demo.Visualiser.Defs.{Visualiser, turns, line}
use hft_demo.Visualiser.Layout.{PayloadFits}
use hft_demo.Visualiser.Batches.{Batches, join}
use hft_demo.Visualiser.Drain.{Telemetry, turns-drain}
use hft_demo.Replay.{write_telemetry}
use hft_demo.Ring.Served.{write-Serves}
use hft_demo.Common.{TelemetryPayload, payload_bytes, length-payload_bytes}
use hft_demo.Prelude.Mask.{pow2, pow2-pos}
use hft_demo.Prelude.Text.{Text}
use hft_demo.Prelude.{
  [], ◌∷◌, ap, ◌∙◌, ◌≡◌, length, Build, length-append, ℕ, List, ◌+◌, ◌%◌, ◌*◌, ◌≤◌, ◌<◌, ok, ◌++◌,
  arith, All-snoc, drop, drop-append, map,
}

write_telemetry-Telemetry :
    (b : Build) (clock : ℕ → ℕ) (k : ℕ) (ring : ShmRing) (sent : List TelemetryPayload)
    (p : TelemetryPayload)
    → Telemetry k ring sent
    → PayloadFits p
    → slot_size + length sent % pow2 k * slot_size + slot_size ≤ ring.mmap.mapped
    → length sent + 2 < u64_mod
    → (ring' : ShmRing) × (write_telemetry b clock ring (payload_bytes p) ≡ ok ring')
      × Telemetry k ring' (sent ++ (p ∷ []))
unfolding write_telemetry
write_telemetry-Telemetry b clock k ring sent p t fits room more =
    let (m, written, serves) =
      write-Serves payload_bytes b k ring sent (clock ring.mmap.head) p t.slots t.serves room
        (omega (arith, length-payload_bytes p)) (omega (arith, more)) in
    (
      record ring { mmap = m },
      written,
      record {
        slots = t.slots;
        serves = serves;
        fit = All-snoc sent p t.fit fits;
        countable = omega (arith, more, length-append {0} sent (p ∷ []));
      },
    )

-- A record that the replay writes, to a slot that is mapped, while the visualiser holds nothing and
-- has read all that was there, is posted by the visualiser's next two turns: its line, once, and
-- nothing else.
pub write_telemetry-posted :
    (b : Build) (clock : ℕ → ℕ) (k : ℕ) (ring : ShmRing) (sent : List TelemetryPayload)
    (p : TelemetryPayload) (v : Visualiser) (posts : List (List Text))
    → Telemetry k ring sent
    → PayloadFits p
    → slot_size + length sent % pow2 k * slot_size + slot_size ≤ ring.mmap.mapped
    → length sent + 2 < u64_mod
    → Batches v posts []
    → v.sequence_num ≡ length sent
    → (ring' : ShmRing) × (v' : Visualiser) × (posts' : List (List Text)) × (write_telemetry b clock
          ring
          (payload_bytes p)
        ≡ ok ring')
      × (turns b ring' 2 v ≡ ok v')
      × Batches v' posts' []
      × (join posts' ≡ join posts ++ (line p ∷ []))
write_telemetry-posted b clock k ring sent p v posts t fits room more h read =
    let (ring', written, t') = write_telemetry-Telemetry b clock k ring sent p t fits room more in
    let grown = length-append {0} sent (p ∷ []) in
    let (v', posts', run, h', _, lines) =
      turns-drain b k 1 ring' (sent ++ (p ∷ [])) v posts [] t' h (omega (arith, read, grown))
        (omega (arith, pow2-pos k)) in
    let fresh : drop v.sequence_num (sent ++ (p ∷ [])) ≡ p ∷ [] =
      ap (λ n. drop n (sent ++ (p ∷ []))) (omega (arith, read)) ∙ drop-append sent (p ∷ []) 0 in
    (
      ring',
      v',
      posts',
      written,
      run,
      h',
      lines
          ∙ (ap (λ ps. (join posts ++ []) ++ map line ps) fresh
              ∙ ap (λ ls. ls ++ (line p ∷ [])) (append-nil (join posts))),
    )
