-- ===== src/Operator/Compose/Resolution.antt =====
-- A stage is composed exactly of the sequences that it refers to.
use keptn_gitops_operator.Base.{
  String, ◌≢◌, ◌==◌, ◌++◌, ◌∙◌, inl, inr, eq_iff, Bool-cases, ◌≡◌, refl, ap, ◌↔◌, some, List, [],
  ◌∷◌, arith, Reply, value, error,
}
use keptn_gitops_operator.Api.{KeptnSequenceRefSpec, KeptnStage, Sequence, KeptnSequence, Stage}
use keptn_gitops_operator.Operator.Compose.{find_sequence, compose_sequences, compose_keptn_stage}

-- No sequence has the name.
abbrev pub IsUnused : String → List KeptnSequence → Type 0
IsUnused name [] = Unit
IsUnused name (x ∷ items) = (x.meta.name ≢ name) × IsUnused name items

-- The sequence is that of an item with the name, before which no item has the name.
pub record IsFirst (name : String) (items : List KeptnSequence) (s : Sequence) : Type 0 where
  pub before : List KeptnSequence
  pub item : KeptnSequence
  pub after : List KeptnSequence
  pub splits : items ≡ before ++ (item ∷ after)
  pub named : item.meta.name ≡ name
  pub gives : item.sequence ≡ s
  pub unused : IsUnused name before

IsFirst-cons :
    (x : KeptnSequence) (items : List KeptnSequence) (name : String) (s : Sequence)
    → x.meta.name ≢ name
    → IsFirst name items s
    → IsFirst name (x ∷ items) s
IsFirst-cons x items name s other h = record {
  before = x ∷ h.before;
  item = h.item;
  after = h.after;
  splits = ap (λ l. x ∷ l) h.splits;
  named = h.named;
  gives = h.gives;
  unused = (other, h.unused);
}

IsFirst-find_sequence :
    (items : List KeptnSequence) (name : String) (s : Sequence)
    → find_sequence items name ≡ some s
    → IsFirst name items s
unfolding find_sequence
IsFirst-find_sequence [] name s h = absurd (ground arith)
IsFirst-find_sequence (x ∷ items) name s h = elim (Bool-cases (x.meta.name == name)) [
  | inl e ↦ record {
    before = [];
    item = x;
    after = items;
    splits = refl;
    named = (eq_iff x.meta.name name).0 e;
    gives = ground (arith, e);
    unused = tt;
  }
  | inr e ↦
      IsFirst-cons x items name s (λ q. ground (arith, e, (eq_iff x.meta.name name).1 q))
        (IsFirst-find_sequence items name s (ground (arith, e)))
]

find_sequence-append :
    (before after : List KeptnSequence) (item : KeptnSequence) (name : String)
    → item.meta.name ≡ name
    → IsUnused name before
    → find_sequence (before ++ (item ∷ after)) name ≡ some item.sequence
unfolding find_sequence
find_sequence-append [] after item name named h = rw ((eq_iff item.meta.name name).1 named) refl
find_sequence-append (x ∷ before) after item name named (other, h) =
    ground
      (arith, eq_iff x.meta.name name, other, find_sequence-append before after item name named h)

find_sequence-IsFirst :
    (items : List KeptnSequence) (name : String) (s : Sequence)
    → IsFirst name items s
    → find_sequence items name ≡ some s
find_sequence-IsFirst items name s h =
    rw h.splits
      (find_sequence-append h.before h.after h.item name h.named h.unused ∙ ap some h.gives)

-- Each reference resolves to the sequence at the same place.
abbrev pub Resolves : List KeptnSequence → List KeptnSequenceRefSpec → List Sequence → Type 0
Resolves items [] [] = Unit
Resolves items (r ∷ refs) (s ∷ sequences) =
    IsFirst r.sequence_ref items s × Resolves items refs sequences
Resolves items [] (s ∷ sequences) = ⊥
Resolves items (r ∷ refs) [] = ⊥

compose_sequences-Resolves :
    (refs : List KeptnSequenceRefSpec) (items : List KeptnSequence) (l : List Sequence)
    → compose_sequences refs items ≡ value l
    → Resolves items refs l
unfolding compose_sequences
compose_sequences-Resolves [] items [] h = tt
compose_sequences-Resolves [] items (s ∷ l) h = cc
compose_sequences-Resolves (r ∷ refs) items [] h = absurd (ground arith)
compose_sequences-Resolves (r ∷ refs) items (s ∷ l) h = (
  IsFirst-find_sequence items r.sequence_ref s (ground arith),
  compose_sequences-Resolves refs items l (ground arith),
)

Resolves-compose_sequences :
    (refs : List KeptnSequenceRefSpec) (items : List KeptnSequence) (l : List Sequence)
    → Resolves items refs l
    → compose_sequences refs items ≡ value l
unfolding compose_sequences
Resolves-compose_sequences [] items [] h = refl
Resolves-compose_sequences [] items (s ∷ l) h = absurd h
Resolves-compose_sequences (r ∷ refs) items [] h = absurd h
Resolves-compose_sequences (r ∷ refs) items (s ∷ l) (here, rest) = ground (
  arith,
  find_sequence-IsFirst items r.sequence_ref s here,
  Resolves-compose_sequences refs items l rest,
)

-- A stage is composed successfully into a given one exactly if that has the stage's name and
-- its sequences are, one for one and in order, those of the available items that have the
-- names the stage refers to, each time the first item of that name: no item before it has the
-- name.
pub compose_keptn_stage_iff :
    (stage : KeptnStage) (items : List KeptnSequence) (composed : Stage)
    → (compose_keptn_stage stage items ≡ value composed)
      ↔ ((composed.name ≡ stage.meta.name) × Resolves items stage.spec.sequence composed.sequences)
unfolding compose_keptn_stage
compose_keptn_stage_iff stage items composed = (
  λ h. go (compose_sequences stage.spec.sequence items) refl h,
  λ (named, r).
      back named (Resolves-compose_sequences stage.spec.sequence items composed.sequences r),
)
  where
    back :
        composed.name ≡ stage.meta.name
        → compose_sequences stage.spec.sequence items ≡ value composed.sequences
        → compose_keptn_stage stage items ≡ value composed
    back named r =
        rw (r, compose_keptn_stage)
          (let same : record { name = stage.meta.name; sequences = composed.sequences } ≡ composed =
              cc in
            ap value same)

    go :
        (r : Reply (List Sequence))
        → compose_sequences stage.spec.sequence items ≡ r
        → compose_keptn_stage stage items ≡ value composed
        → (composed.name ≡ stage.meta.name) × Resolves items stage.spec.sequence composed.sequences
    go (error e) q h = absurd (ground arith)
    go (value l) q h = (
      ground arith,
      compose_sequences-Resolves stage.spec.sequence items composed.sequences (ground arith),
    )
