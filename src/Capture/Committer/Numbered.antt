-- ===== src/Capture/Committer/Numbered.antt =====
-- src-tauri/src/capture/committer.rs: how the messages of a source are numbered.
use life_sub.Common.{
  ℕ, ◌+◌, ◌≤◌, min, ◌-◌, ◌/◌, ◌≢◌, ◌∙◌, checked_sub, ◌≡◌, refl, sym, ap, subst, Option, some, List,
  [], ◌∷◌, Result, ok, arith, String, if◌then◌else◌,
}
use life_sub.Capture.Protocol.Headers.{Source, microphone, system_audio, source_eq, ChunkSealed}
use life_sub.Capture.Seal.{AudioChunk, NativeChunkSealRequest, NativeChunkSealError}
use life_sub.Capture.Committer.{
  CatalogCaptureCommitter, chunk_id_from_path, new_committer, sequence_at, i64_max, request_for,
  request_of, commit,
}

-- A message with the answers that the committer gets for it.
pub record Commission : Type 0 where
  pub sealed : ChunkSealed
  pub now : ℕ
  pub seal : NativeChunkSealRequest → Result NativeChunkSealError AudioChunk
  pub after_commit : AudioChunk → Result String (Unit {0})

abbrev pub count_source : Source → List Commission → ℕ
count_source s [] = 0
count_source s (x ∷ xs) = (if source_eq s x.sealed.source then 1 else 0) + count_source s xs

module _ (add_milliseconds : ℕ → ℕ → ℕ) where
  -- Messages one after another, whatever is returned for them.
  unfoldable pub commit_all : List Commission → CatalogCaptureCommitter → CatalogCaptureCommitter
  commit_all [] c = c
  commit_all (x ∷ xs) c =
      commit_all xs ((commit add_milliseconds x.now x.seal x.after_commit x.sealed c).0)

  request_of-counts :
      (now : ℕ) (x : ChunkSealed) (c : CatalogCaptureCommitter) (s : Source) (id : String)
      → c.source_ids s ≡ some id
      → sequence_at c s ≤ i64_max
      → (sequence_at ((request_of add_milliseconds now x c).0) s
          ≡ min (sequence_at c s + (if source_eq s x.source then 1 else 0)) i64_max)
        × ((request_of add_milliseconds now x c).0.source_ids ≡ c.source_ids)
  unfolding request_of
  request_of-counts now x c microphone id registered room = ground arith
  request_of-counts now x c system_audio id registered room = ground arith

  commit_all-counts :
      (xs : List Commission) (c : CatalogCaptureCommitter) (s : Source) (id : String)
      → c.source_ids s ≡ some id
      → sequence_at c s ≤ i64_max
      → (sequence_at (commit_all xs c) s ≡ min (sequence_at c s + count_source s xs) i64_max)
        × ((commit_all xs c).source_ids ≡ c.source_ids)
  unfolding commit_all commit
  commit_all-counts [] c s id registered room = (omega arith, refl)
  commit_all-counts (x ∷ xs) c s id registered room =
      let (step, same) = request_of-counts x.now x.sealed c s id registered room in
      let (rest, same') =
        commit_all-counts xs ((request_of add_milliseconds x.now x.sealed c).0) s id
          (ap (λ f. f s) same ∙ registered) (omega arith) in
      (omega arith, same' ∙ same)

  -- What a request is made of, beside its number.
  request_of-made :
      (now : ℕ) (x : ChunkSealed) (c : CatalogCaptureCommitter) (request : NativeChunkSealRequest)
      → (request_of add_milliseconds now x c).1 ≡ ok request
      → (c.source_ids x.source ≡ some request.timing.capture_source_id)
        × (request.timing.source_sequence ≡ sequence_at c x.source)
        × (sequence_at c x.source ≢ i64_max)
        × (chunk_id_from_path x.relative_staging_path ≡ some request.chunk_id)
        × (request.timing.chunk_id ≡ request.chunk_id)
        × (c.session_anchor_ns ≤ x.start_host_time)
        × (request.timing.session_start_ms ≡ (x.start_host_time - c.session_anchor_ns) / 1000000)
        × (c.session_anchor_ns ≤ x.end_host_time)
        × (request.timing.session_end_ms ≡ (x.end_host_time - c.session_anchor_ns) / 1000000)
  unfolding request_of request_for checked_sub
  request_of-made now x c request made = ground arith

  commit_all-anchor :
      (xs : List Commission) (c : CatalogCaptureCommitter)
      → ((commit_all xs c).session_anchor_ns ≡ c.session_anchor_ns)
        × ((commit_all xs c).source_ids ≡ c.source_ids)
  unfolding commit_all commit request_of
  commit_all-anchor [] c = (refl, refl)
  commit_all-anchor (x ∷ xs) c =
      let (anchor, ids) = commit_all-anchor xs ((request_of add_milliseconds x.now x.sealed c).0) in
      (anchor ∙ ground arith, ids ∙ ground arith)

  -- When a new committer has been handed some messages, whatever the sealer, the step after it and the clock
  -- have answered, and a request is made for one more message, then the request carries the identity of the
  -- message's source, the number of earlier messages of that source, and, as the request's and the timing's, the
  -- chunk that the message's path names; the message starts and ends no earlier than the anchor of the session,
  -- and the request has the milliseconds since the anchor.
  pub commit_all-numbers :
      (xs : List Commission) (session_id : String) (source_ids : Source → Option String)
      (anchor now : ℕ) (x : ChunkSealed) (request : NativeChunkSealRequest)
      → (request_of add_milliseconds now x
          (commit_all xs (new_committer session_id source_ids anchor))).1
        ≡ ok request
      → (source_ids x.source ≡ some request.timing.capture_source_id)
        × (request.timing.source_sequence ≡ count_source x.source xs)
        × (chunk_id_from_path x.relative_staging_path ≡ some request.chunk_id)
        × (request.timing.chunk_id ≡ request.chunk_id)
        × (anchor ≤ x.start_host_time)
        × (request.timing.session_start_ms ≡ (x.start_host_time - anchor) / 1000000)
        × (anchor ≤ x.end_host_time)
        × (request.timing.session_end_ms ≡ (x.end_host_time - anchor) / 1000000)
  unfolding new_committer
  commit_all-numbers xs session_id source_ids anchor now x request made =
      let c = new_committer session_id source_ids anchor in
      let (same_anchor, same_ids) = commit_all-anchor xs c in
      let (id, number, room, chunk, timing, start, start_ms, end, end_ms) =
        request_of-made now x (commit_all xs c) request made in
      let registered = sym (ap (λ f. f x.source) same_ids) ∙ id in
      let (counted, _) =
        commit_all-counts xs c x.source request.timing.capture_source_id registered (omega arith) in
      (
        registered,
        omega arith,
        chunk,
        timing,
        subst (λ a. a ≤ x.start_host_time) same_anchor start,
        subst (λ a. request.timing.session_start_ms ≡ (x.start_host_time - a) / 1000000) same_anchor
            start_ms,
        subst (λ a. a ≤ x.end_host_time) same_anchor end,
        subst (λ a. request.timing.session_end_ms ≡ (x.end_host_time - a) / 1000000) same_anchor
            end_ms,
      )
