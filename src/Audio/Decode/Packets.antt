-- ===== src/Audio/Decode/Packets.antt =====
-- The loop over the packets of a recording keeps its counts, its samples and its budget in step.
use life_sub.Common.{
  ℕ, ◌*◌, ◌≡◌, refl, sym, ap, ◌∙◌, ◌⊎◌, inl, inr, Bool, false, subst, Option, none, some, List, [],
  ◌∷◌, ◌++◌, ok, arith, All, length, length-append, >>=-eq-ok, Bool-cases, ◌==◌, try_from,
  checked_mul, Result-cases,
}
use life_sub.Audio.{DecodeResourceBudget, accept_packet}
use life_sub.Audio.Budget.{IsInBudget, new_budget-IsInBudget, accept_packet-IsInBudget}
use life_sub.Audio.Decode.{
  Decoded, PacketEvent, unreadable, packet, DecodeState, budget_for, take_frames, differs,
  decode_packet, decode_event, decode_loop,
}

module _ {F32 : Type 0} where
  -- The decoder writes as many samples as its header says.
  abbrev pub FillsItsSlice : PacketEvent F32 → Type 0
  FillsItsSlice unreadable = Unit {0}
  FillsItsSlice (packet id none) = Unit {0}
  FillsItsSlice (packet id (some d)) = length d.samples ≡ d.frames * d.channels

  abbrev pub Matches : DecodeState F32 → Option DecodeResourceBudget → Type 0
  Matches s none = (s.source_frames ≡ 0) × (s.interleaved ≡ [])
  Matches s (some b) =
      (rate : ℕ) × (s.source_rate ≡ some rate)
      × (s.source_channels ≡ some b.channels)
      × IsInBudget rate b
      × (s.source_frames ≡ b.source_frames)
      × (length s.interleaved ≡ b.interleaved_samples)

  -- Either nothing is decoded yet, or the state's counts are its budget's.
  abbrev pub InStep : DecodeState F32 → Type 0
  InStep s = Matches s s.resource_budget

  -- The budget that a packet is charged to: the one at hand, or a new one.
  opened :
      (s : DecodeState F32) (m : Option DecodeResourceBudget) (b : DecodeResourceBudget)
      (rate channels : ℕ)
      → Matches s m
      → s.source_rate ≡ some rate
      → s.source_channels ≡ some channels
      → budget_for m rate channels ≡ ok b
      → IsInBudget rate b
        × (b.channels ≡ channels)
        × (s.source_frames ≡ b.source_frames)
        × (length s.interleaved ≡ b.interleaved_samples)
  unfolding budget_for
  opened s none b rate channels (none_yet, empty) er ec h =
      let (v, same, start) = new_budget-IsInBudget rate channels b h in
      (v, same, none_yet ∙ sym start, rw empty (ground arith))
  opened s (some old) b rate channels (rate', er', ec', v, frames, samples) er ec h = ground arith

  module _ (room : ℕ → Bool) where
    take_frames-eq-ok :
        (s t : DecodeState F32) (d : Decoded F32)
        → take_frames room s d ≡ ok t
        → (b c : DecodeResourceBudget) × (budget_for s.resource_budget d.rate d.channels ≡ ok b)
          × (accept_packet b d.frames (d.frames * d.channels) ≡ ok c)
          × (t ≡ record s {
            source_frames = c.source_frames;
            interleaved = s.interleaved ++ d.samples;
            resource_budget = some c;
          })
    unfolding take_frames try_from checked_mul
    take_frames-eq-ok s t d h =
        elim (Result-cases (budget_for s.resource_budget d.rate d.channels)) [
          | inl (b, e) ↦ elim (Result-cases (accept_packet b d.frames (d.frames * d.channels))) [
            | inl (c, e') ↦ (b, c, e, e', ground arith)
            | inr (x, e') ↦ absurd (ground arith)
          ]
          | inr (x, e) ↦ absurd (ground arith)
        ]

    take_frames-InStep :
        (s t : DecodeState F32) (d : Decoded F32)
        → InStep s
        → s.source_rate ≡ some d.rate
        → s.source_channels ≡ some d.channels
        → length d.samples ≡ d.frames * d.channels
        → take_frames room s d ≡ ok t
        → InStep t
    take_frames-InStep s t d v er ec fills h =
        let (b, c, eb, ea, et) = take_frames-eq-ok s t d h in
        let (vb, channels, frames, samples) =
          opened s s.resource_budget b d.rate d.channels v er ec eb in
        let (vc, same, more, exact) =
          accept_packet-IsInBudget d.rate b c d.frames (d.frames * d.channels) vb ea in
        rw et (
          d.rate,
          er,
          ec ∙ ap some (sym channels ∙ sym same),
          vc,
          refl,
          omega (arith, length-append s.interleaved d.samples),
        )

    decode_packet-eq-ok :
        (s t : DecodeState F32) (d : Decoded F32)
        → decode_packet room s d ≡ ok t
        → let seen = record s { source_rate = some d.rate; source_channels = some d.channels } in
          (differs s.source_rate d.rate ≡ false)
          × (differs s.source_channels d.channels ≡ false)
          × ((t ≡ seen) ⊎ (take_frames room seen d ≡ ok t))
    unfolding decode_packet
    decode_packet-eq-ok s t d h = (ground arith, ground arith, ground arith)

    seen-InStep :
        (s : DecodeState F32) (m : Option DecodeResourceBudget) (rate channels : ℕ)
        → Matches s m
        → differs s.source_rate rate ≡ false
        → differs s.source_channels channels ≡ false
        → Matches (record s { source_rate = some rate; source_channels = some channels }) m
    seen-InStep s none rate channels v er ec = v
    seen-InStep s (some b) rate channels (rate', er', ec', v, frames, samples) er ec =
        let same : rate' ≡ rate = ground arith in
        (rate, refl, ground arith, subst (λ r. IsInBudget r b) same v, frames, samples)

    decode_packet-InStep :
        (s t : DecodeState F32) (d : Decoded F32)
        → InStep s
        → length d.samples ≡ d.frames * d.channels
        → decode_packet room s d ≡ ok t
        → InStep t
    decode_packet-InStep s t d v fills h =
        let (er, ec, outcome) = decode_packet-eq-ok s t d h in
        let seen : DecodeState F32 = record s {
          source_rate = some d.rate;
          source_channels = some d.channels;
        } in
        let v' : InStep seen = seen-InStep s s.resource_budget d.rate d.channels v er ec in
        elim outcome [ inl e ↦ rw e v' | inr e ↦ take_frames-InStep seen t d v' refl refl fills e ]

    decode_event-InStep :
        (track_id : ℕ) (s t : DecodeState F32) (e : PacketEvent F32)
        → InStep s
        → FillsItsSlice e
        → decode_event room track_id s e ≡ ok t
        → InStep t
    unfolding decode_event
    decode_event-InStep track_id s t unreadable v fills h = cc
    decode_event-InStep track_id s t (packet id none) v fills h =
        elim (Bool-cases (id == track_id)) [
          | inl mine ↦ absurd (ground arith)
          | inr other ↦ subst InStep (ground arith) v
        ]
    decode_event-InStep track_id s t (packet id (some d)) v fills h =
        elim (Bool-cases (id == track_id)) [
          | inl mine ↦ decode_packet-InStep s t d v fills (ground arith)
          | inr other ↦ subst InStep (ground arith) v
        ]

    pub decode_loop-InStep :
        (track_id : ℕ) (s t : DecodeState F32) (es : List (PacketEvent F32))
        → InStep s
        → All FillsItsSlice es
        → decode_loop room track_id s es ≡ ok t
        → InStep t
    unfolding decode_loop
    decode_loop-InStep track_id s t [] v fills h = subst InStep (ground arith) v
    decode_loop-InStep track_id s t (e ∷ es) v fills h =
        let (s', e1, h1) =
          >>=-eq-ok (decode_event room track_id s e) (λ s'. decode_loop room track_id s' es) h in
        decode_loop-InStep track_id s' t es (decode_event-InStep track_id s s' e v fills.0 e1)
          fills.1 h1
