-- ===== src/Storage/Merge/Kept.antt =====
-- What deduplication keeps of the rows.
use mcptracer.Common.{
  ℕ, String, Bool, true, false, not, ◌&&◌, ◌≡◌, refl, sym, ap, ◌∙◌, ◌⊎◌, inl, inr, Option, none,
  some, List, [], ◌∷◌, ◌++◌, keep, any, All, All-restrict, All-map, ◌==◌, arith, if◌then◌else◌,
  Bool-cases,
}
use mcptracer.Json.{Codec}
use mcptracer.Model.Session.{StoredMessage}
use mcptracer.Storage.Merge.{
  DeduplicationKey, same_key, deduplication_key, is_client_request, is_server_response, Dedup,
  flag_of, dedup_request, dedup_response, scan_one, scan,
}

-- No number stands twice.
abbrev pub Unique : List StoredMessage → Type 0
Unique [] = Unit
Unique (m ∷ ms) = All (λ (x : StoredMessage). (m.seq == x.seq) ≡ false) ms × Unique ms

-- The first list is the second with some messages left out.
abbrev pub PartOf : List StoredMessage → List StoredMessage → Type 0
PartOf [] ys = Unit
PartOf (x ∷ xs) [] = ⊥
PartOf (x ∷ xs) (y ∷ ys) = ((x ≡ y) × PartOf xs ys) ⊎ PartOf (x ∷ xs) ys

-- Neither a request of the client nor a response of the server.
abbrev pub is_other : StoredMessage → Bool
is_other m = not (is_client_request m) && not (is_server_response m)

abbrev pub in_numbers : ℕ → List ℕ → Bool
in_numbers x = any (λ n. n == x)

abbrev pub stays : List ℕ → StoredMessage → Bool
stays removed m = not (in_numbers m.seq removed)

swap : (a b : ℕ) → (a == b) ≡ false → (b == a) ≡ false
swap a b h = ground arith

if_same {ℓ} : {A : Type ℓ} (b : Bool) (x : A) → (if b then x else x) ≡ x
if_same true x = refl
if_same false x = refl

dedup_request-removed :
    (x : ℕ) (o : Option DeduplicationKey) (m : StoredMessage) (d : Dedup)
    → (m.seq == x) ≡ false
    → in_numbers x (dedup_request o m d).removed_sequences ≡ in_numbers x d.removed_sequences
unfolding dedup_request
dedup_request-removed x none m d h = refl
dedup_request-removed x (some key) m d h = elim (Bool-cases (any (same_key key) d.seen_calls)) [
  | inl e ↦ rw (e, h) refl
  | inr e ↦ rw e refl
]

dedup_response-removed :
    (x : ℕ) (b : Bool) (o : Option String) (m : StoredMessage) (d : Dedup)
    → (m.seq == x) ≡ false
    → in_numbers x (if b then dedup_response o m d else d).removed_sequences
      ≡ in_numbers x d.removed_sequences
unfolding dedup_response
dedup_response-removed x false o m d h = refl
dedup_response-removed x true none m d h = refl
dedup_response-removed x true (some id) m d h = elim (Bool-cases (flag_of id d.pending_requests)) [
  | inl e ↦ rw (e, h) refl
  | inr e ↦ rw e refl
]

module _ (codec : Codec) where
  abbrev pub key_of : StoredMessage → Option DeduplicationKey
  key_of m = if is_client_request m then deduplication_key codec m else none

  abbrev pub push_key : Option DeduplicationKey → List DeduplicationKey → List DeduplicationKey
  push_key none seen = seen
  push_key (some key) seen = key ∷ seen

  -- The keys of the messages, the last first, before those of `seen`.
  abbrev pub keys_of : List StoredMessage → List DeduplicationKey → List DeduplicationKey
  keys_of [] seen = seen
  keys_of (m ∷ ms) seen = keys_of ms (push_key (key_of m) seen)

  pub keys_of-append :
      (xs ys : List StoredMessage) (seen : List DeduplicationKey)
      → keys_of (xs ++ ys) seen ≡ keys_of ys (keys_of xs seen)
  keys_of-append [] ys seen = refl
  keys_of-append (x ∷ xs) ys seen = keys_of-append xs ys (push_key (key_of x) seen)

  scan_one-removed :
      (x : ℕ) (m : StoredMessage) (d : Dedup)
      → (m.seq == x) ≡ false
      → in_numbers x (scan_one codec m d).removed_sequences ≡ in_numbers x d.removed_sequences
  unfolding scan_one
  scan_one-removed x m d h = elim (Bool-cases (is_client_request m)) [
    | inl e ↦ rw e (dedup_request-removed x (deduplication_key codec m) m d h)
    | inr e ↦ rw e (dedup_response-removed x (is_server_response m) m.rpc_id m d h)
  ]

  scan-removed :
      (x : ℕ) (ms : List StoredMessage) (d : Dedup)
      → All (λ (m : StoredMessage). (m.seq == x) ≡ false) ms
      → in_numbers x (scan codec ms d).removed_sequences ≡ in_numbers x d.removed_sequences
  unfolding scan
  scan-removed x [] d h = refl
  scan-removed x (m ∷ ms) d (e, h) =
      scan-removed x ms (scan_one codec m d) h ∙ scan_one-removed x m d e

  dedup_request-pushes :
      (o : Option DeduplicationKey) (m : StoredMessage) (d : Dedup)
      → in_numbers m.seq d.removed_sequences ≡ false
      → (if in_numbers m.seq (dedup_request o m d).removed_sequences
          then d.seen_calls
          else push_key o d.seen_calls)
        ≡ (dedup_request o m d).seen_calls
  unfolding dedup_request
  dedup_request-pushes none m d h = rw h refl
  dedup_request-pushes (some key) m d h = elim (Bool-cases (any (same_key key) d.seen_calls)) [
    | inl e ↦ rw e (ground arith)
    | inr e ↦ rw (e, h) refl
  ]

  pub dedup_response-seen :
      (b : Bool) (o : Option String) (m : StoredMessage) (d : Dedup)
      → (if b then dedup_response o m d else d).seen_calls ≡ d.seen_calls
  unfolding dedup_response
  dedup_response-seen false o m d = refl
  dedup_response-seen true none m d = refl
  dedup_response-seen true (some id) m d = refl

  -- A message that a step does not remove leaves its key.
  scan_one-pushes :
      (m : StoredMessage) (d : Dedup)
      → in_numbers m.seq d.removed_sequences ≡ false
      → (if in_numbers m.seq (scan_one codec m d).removed_sequences
          then d.seen_calls
          else push_key (key_of m) d.seen_calls)
        ≡ (scan_one codec m d).seen_calls
  unfolding scan_one
  scan_one-pushes m d h = elim (Bool-cases (is_client_request m)) [
    | inl e ↦ rw e (dedup_request-pushes (deduplication_key codec m) m d h)
    | inr e ↦
        rw e
          (if_same _ d.seen_calls ∙ sym (dedup_response-seen (is_server_response m) m.rpc_id m d))
  ]

  abbrev pub Fresh : Dedup → List StoredMessage → Type 0
  Fresh d = All (λ (m : StoredMessage). in_numbers m.seq d.removed_sequences ≡ false)

  later-Fresh :
      (m : StoredMessage) (ms : List StoredMessage) (d : Dedup)
      → All (λ (x : StoredMessage). (m.seq == x.seq) ≡ false) ms
      → Fresh d ms
      → Fresh (scan_one codec m d) ms
  later-Fresh m ms d =
      All-restrict (λ (x : StoredMessage). (m.seq == x.seq) ≡ false)
        (λ (x : StoredMessage). in_numbers x.seq d.removed_sequences ≡ false)
        (λ (x : StoredMessage). in_numbers x.seq (scan_one codec m d).removed_sequences ≡ false)
        (λ x e h. scan_one-removed x.seq m d e ∙ h) ms

  settled_lem :
      (m : StoredMessage) (ms : List StoredMessage) (d : Dedup)
      → All (λ (x : StoredMessage). (m.seq == x.seq) ≡ false) ms
      → in_numbers m.seq (scan codec ms d).removed_sequences ≡ in_numbers m.seq d.removed_sequences
  settled_lem m ms d u = scan-removed m.seq ms d (
      All-map (λ (x : StoredMessage). (m.seq == x.seq) ≡ false)
        (λ (x : StoredMessage). (x.seq == m.seq) ≡ false) (λ x. swap m.seq x.seq) ms u)

  pub scan-keys_of :
      (ms : List StoredMessage) (d : Dedup)
      → Unique ms
      → Fresh d ms
      → keys_of (keep (stays (scan codec ms d).removed_sequences) ms) d.seen_calls
        ≡ (scan codec ms d).seen_calls
  unfolding scan
  scan-keys_of [] d u h = refl
  scan-keys_of (m ∷ ms) d (u, us) (h, hs) =
      let e = scan_one codec m d in
      let later = scan-keys_of ms e us (later-Fresh m ms d u hs) in
      let one = scan_one-pushes m d h in
      let same = settled_lem m ms e u in
      elim (Bool-cases (in_numbers m.seq e.removed_sequences)) [
        | inl q ↦
            rw (same, q)
              (ap (keys_of (keep (stays (scan codec ms e).removed_sequences) ms)) (rw q at one)
                ∙ later)
        | inr q ↦
            rw (same, q)
              (ap (keys_of (keep (stays (scan codec ms e).removed_sequences) ms)) (rw q at one)
                ∙ later)
      ]

  other-step : (m : StoredMessage) (d : Dedup) → is_other m ≡ true → scan_one codec m d ≡ d
  unfolding scan_one
  other-step m d h = ground arith

  pub scan-others :
      (ms : List StoredMessage) (d : Dedup)
      → Unique ms
      → Fresh d ms
      → keep is_other (keep (stays (scan codec ms d).removed_sequences) ms) ≡ keep is_other ms
  unfolding scan
  scan-others [] d u h = refl
  scan-others (m ∷ ms) d (u, us) (h, hs) =
      let e = scan_one codec m d in
      let later = scan-others ms e us (later-Fresh m ms d u hs) in
      let same = settled_lem m ms e u in
      elim (Bool-cases (is_other m)) [
        | inl q ↦
            let gone =
              same
              ∙ (ap (λ (x : Dedup). in_numbers m.seq x.removed_sequences) (other-step m d q) ∙ h) in
            rw (gone, q) (ap (λ (l : List StoredMessage). m ∷ l) later)
        | inr q ↦ elim (Bool-cases (in_numbers m.seq (scan codec ms e).removed_sequences)) [
          | inl g ↦ rw (g, q) later
          | inr g ↦ rw (g, q) later
        ]
      ]
