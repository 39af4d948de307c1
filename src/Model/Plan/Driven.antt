-- ===== src/Model/Plan/Driven.antt =====
-- The order in which a replay drives the recorded messages.
use mcptracer.Common.{
  ◌≡◌, refl, sym, ap, ◌∙◌, Bool, true, false, Option, none, some, List, [], ◌∷◌, ◌++◌, keep, length,
  arith, All, inl, inr, ◌⊎◌, if◌then◌else◌,
}
use mcptracer.Model.Session.{StoredMessage}
use mcptracer.Model.Plan.{is_driven, is_initialize, take_initialize, driven_messages}

-- The first message of a list that initializes, between those before it and those behind it.
pub record FirstInitialize (ms : List StoredMessage) : Type 0 where
  pub before : List StoredMessage
  pub init : StoredMessage
  pub later_on : List StoredMessage
  pub parts : ms ≡ before ++ (init ∷ later_on)
  pub none_before : All (λ m. is_initialize m ≡ false) before
  pub initializes : is_initialize init ≡ true

abbrev Taken : List StoredMessage → Option (StoredMessage × List StoredMessage) → Type 0
Taken ms none = All (λ m. is_initialize m ≡ false) ms
Taken ms (some (i, others)) =
    (f : FirstInitialize ms) × (f.init ≡ i) × (others ≡ f.before ++ f.later_on)

module _ (m : StoredMessage) (ms : List StoredMessage) where
  abbrev picked :
      Bool
      → Option (StoredMessage × List StoredMessage)
      → Option (StoredMessage × List StoredMessage)
  picked b o =
      if b then some (m, ms) else elim o as (λ _. Option (StoredMessage × List StoredMessage)) [
        | none ↦ none
        | some (i, others) ↦ some (i, m ∷ others)
      ]

  -- The message before the first that initializes.
  later : is_initialize m ≡ false → FirstInitialize ms → FirstInitialize (m ∷ ms)
  later e f = record {
    before = m ∷ f.before;
    init = f.init;
    later_on = f.later_on;
    parts = ap (λ (l : List StoredMessage). m ∷ l) f.parts;
    none_before = (e, f.none_before);
    initializes = f.initializes;
  }

  picked-Taken :
      (b : Bool) (o : Option (StoredMessage × List StoredMessage))
      → is_initialize m ≡ b
      → Taken ms o
      → Taken (m ∷ ms) (picked b o)
  unfolding later
  picked-Taken true o e h = (
    record {
      before = [];
      init = m;
      later_on = ms;
      parts = refl;
      none_before = tt;
      initializes = e;
    },
    refl,
    refl,
  )
  picked-Taken false none e h = (e, h)
  picked-Taken false (some (i, others)) e (f, same, rest) =
      (later e f, same, ap (λ (l : List StoredMessage). m ∷ l) rest)

take_initialize-Taken : (ms : List StoredMessage) → Taken ms (take_initialize ms)
unfolding take_initialize
take_initialize-Taken [] = tt
take_initialize-Taken (m ∷ ms) =
    picked-Taken m ms (is_initialize m) (take_initialize ms) refl (take_initialize-Taken ms)

-- The drive order: the messages as recorded, with the first that initializes in front.
abbrev pub InDriveOrder : List StoredMessage → List StoredMessage → Type 0
InDriveOrder ms out =
    ((out ≡ ms) × All (λ m. is_initialize m ≡ false) ms)
    ⊎ ((f : FirstInitialize ms) × (out ≡ f.init ∷ (f.before ++ f.later_on)))

abbrev with_front :
    List StoredMessage → Option (StoredMessage × List StoredMessage) → List StoredMessage
with_front ms o = elim o [ none ↦ ms | some (init, others) ↦ init ∷ others ]

with_front-InDriveOrder :
    (ms : List StoredMessage) (o : Option (StoredMessage × List StoredMessage))
    → Taken ms o
    → InDriveOrder ms (with_front ms o)
with_front-InDriveOrder ms none h = inl (refl, h)
with_front-InDriveOrder ms (some (i, others)) (f, same, rest) = inr (f, rw (same, rest) refl)

-- A replay drives the requests and notifications that the client sent, all of them and in recorded
-- order, but for the first that initializes, if there is one: that one goes in front.
pub driven_messages-InDriveOrder :
    (source : List StoredMessage) → InDriveOrder (keep is_driven source) (driven_messages source)
unfolding driven_messages
driven_messages-InDriveOrder source =
    let driven = keep is_driven source in
    with_front-InDriveOrder driven (take_initialize driven) (take_initialize-Taken driven)

length-split :
    (a b : List StoredMessage) (i : StoredMessage) → length (i ∷ (a ++ b)) ≡ length (a ++ (i ∷ b))
length-split [] b i = refl
length-split (x ∷ a) b i = omega (arith, length-split a b i)

pub length-driven_messages :
    (source : List StoredMessage) → length (driven_messages source) ≡ length (keep is_driven source)
length-driven_messages source = elim (driven_messages-InDriveOrder source) [
  | inl (same, _) ↦ ap length same
  | inr (f, same) ↦
      ap length same ∙ (length-split f.before f.later_on f.init ∙ ap length (sym f.parts))
]
