-- ===== src/Protocol/Sse/Chunks.antt =====
-- The decoder reads a stream, not chunks: how the bytes are cut does not show.
use mcptracer.Common.{
  ℕ, Bool, true, false, ◌≡◌, refl, ap, ◌∙◌, sym, inl, inr, List, [], ◌∷◌, ◌++◌, append_assoc, arith,
  ◌==◌, if◌then◌else◌, Bool-cases, length-append,
}
use mcptracer.Protocol.Sse.{
  Bytes, SseDecoder, SseEvent, Fragment, prepend, split_inclusive, buffer, end_line, push_fragment,
  push_fragments, push,
}

-- Two runs, one behind the other.
abbrev pub then_run :
    SseDecoder × List SseEvent
    → (SseDecoder → SseDecoder × List SseEvent)
    → SseDecoder × List SseEvent
then_run (d, events) f = let (d', later) = f d in (d', events ++ later)

-- The chunks of a stream, one call of `push` for each.
abbrev pub push_all : SseDecoder → List Bytes → SseDecoder × List SseEvent
push_all d [] = (d, [])
push_all d (c ∷ cs) = then_run (push d c) (λ d'. push_all d' cs)

abbrev pub concat : List Bytes → Bytes
concat [] = []
concat (c ∷ cs) = c ++ concat cs

pub buffer-append : (d : SseDecoder) (xs ys : Bytes) → buffer (buffer d xs) ys ≡ buffer d (xs ++ ys)
unfolding buffer
buffer-append d xs ys =
    ground (arith, length-append d.line xs, length-append xs ys, append_assoc d.line xs ys)

push_fragment-prepend :
    (d : SseDecoder) (c : ℕ) (bytes : Bytes) (complete : Bool)
    → push_fragment d (c ∷ bytes, complete) ≡ push_fragment (buffer d (c ∷ [])) (bytes, complete)
unfolding push_fragment
push_fragment-prepend d c bytes true = ap end_line (sym (buffer-append d (c ∷ []) bytes))
push_fragment-prepend d c bytes false =
    ap (λ (e : SseDecoder). (e, [])) (sym (buffer-append d (c ∷ []) bytes))

push_fragments-prepend :
    (d : SseDecoder) (c : ℕ) (fs : List Fragment)
    → push_fragments d (prepend c fs) ≡ push_fragments (buffer d (c ∷ [])) fs
unfolding push_fragments
push_fragments-prepend d c [] = unfold push_fragment in refl
push_fragments-prepend d c ((bytes, complete) ∷ fs) = rw (push_fragment-prepend d c bytes complete)

-- One byte.
step : SseDecoder → ℕ → SseDecoder × List SseEvent
step d c = if c == b'\n' then push_fragment d ([], true) else (buffer d (c ∷ []), [])

push-cons :
    (d : SseDecoder) (c : ℕ) (cs : Bytes) → push d (c ∷ cs) ≡ then_run (step d c) (λ d'. push d' cs)
unfolding push step split_inclusive
push-cons d c cs = elim (Bool-cases (c == b'\n')) [
  | inl e ↦ rw (e, split_inclusive) (unfold push_fragments in refl)
  | inr e ↦ rw (e, split_inclusive) (push_fragments-prepend d c (split_inclusive cs))
]

then_run_assoc :
    (r : SseDecoder × List SseEvent) (f g : SseDecoder → SseDecoder × List SseEvent)
    → then_run (then_run r f) g ≡ then_run r (λ d. then_run (f d) g)
then_run_assoc (d, events) f g =
    ap (λ (later : List SseEvent). ((g (f d).0).0, later)) (append_assoc events (f d).1 _)

-- Pushing two chunks is pushing their bytes as one chunk.
pub push-append :
    (d : SseDecoder) (xs ys : Bytes) → push d (xs ++ ys) ≡ then_run (push d xs) (λ d'. push d' ys)
push-append d [] ys = unfold push push_fragments split_inclusive in refl
push-append d (x ∷ xs) ys =
    push-cons d x (xs ++ ys)
    ∙ rw (push-append (step d x).0 xs ys, push-cons)
        (sym (then_run_assoc (step d x) (λ d'. push d' xs) (λ d'. push d' ys)))

-- However a stream is cut into chunks, the decoder ends in the same state and has pushed the same
-- events as when it gets all bytes in one chunk.
pub push_all-push :
    (d : SseDecoder) (chunks : List Bytes) → push_all d chunks ≡ push d (concat chunks)
push_all-push d [] = unfold push push_fragments split_inclusive in refl
push_all-push d (c ∷ cs) = rw (push_all-push (push d c).0 cs) (sym (push-append d c (concat cs)))
