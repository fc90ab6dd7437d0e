-- ===== src/Router/Chain.antt =====
-- The chains of crates/guinea-router/src/router.rs: how much of the chain that stands the next one
-- keeps, and how much of the rest goes to sleep. What a segment captured is of a type that is a
-- parameter, and an entry compares two captures by a function, as `same_params` does.
use guinea.Base.{
  ℕ, zero, suc, ◌+◌, ◌≤◌, ◌<◌, Bool, true, false, ◌&&◌, ◌≡◌, refl, Option, some, List, [], ◌∷◌,
  if◌then◌else◌, ◌==◌, length, get_elem?, drop, arith, Bool-cases, subst, inl, inr,
}

pub record SegmentEntry (P : Type 0) : Type 0 where
  pub type_id : ℕ
  pub keep : Bool
  pub cache_state : Bool
  pub same_params : P → P → Bool

-- The `take_while(..).count()` of `shared_len`, from an index on.
unfoldable pub same_run : (ℕ → Bool) → ℕ → ℕ → ℕ
same_run same index zero = 0
same_run same index (suc n) = if same index then suc (same_run same (index + 1) n) else 0

same_run-same :
    (same : ℕ → Bool) (index n i : ℕ) → i < same_run same index n → same (index + i) ≡ true
unfolding same_run
same_run-same same index zero i h = absurd (omega arith)
same_run-same same index (suc n) i h = elim (Bool-cases (same index)) [
  | inl ok ↦ at_index i (rw ok at h) ok (same_run-same same (index + 1) n)
  | inr stops ↦ absurd (omega (arith, rw stops at h))
]
  where
    at_index :
        (i : ℕ)
        → i < suc (same_run same (index + 1) n)
        → same index ≡ true
        → ((j : ℕ) → j < same_run same (index + 1) n → same (index + 1 + j) ≡ true)
        → same (index + i) ≡ true
    at_index zero h ok ih = subst (λ k. same k ≡ true) (omega arith) ok
    at_index (suc j) h ok ih = subst (λ k. same k ≡ true) (omega arith) (ih j (omega arith))

same_run-le : (same : ℕ → Bool) (index n : ℕ) → same_run same index n ≤ n
unfolding same_run
same_run-le same index zero = omega arith
same_run-le same index (suc n) = ground (arith, same_run-le same (index + 1) n)

same_run-stops :
    (same : ℕ → Bool) (index n : ℕ)
    → same_run same index n < n
    → same (index + same_run same index n) ≡ false
unfolding same_run
same_run-stops same index zero h = absurd (omega arith)
same_run-stops same index (suc n) h = elim (Bool-cases (same index)) [
  | inl ok ↦ rw ok (
      subst (λ k. same k ≡ false) (omega arith)
        (same_run-stops same (index + 1) n (omega (arith, rw ok at h))))
  | inr stops ↦ rw stops (subst (λ k. same k ≡ false) (omega arith) stops)
]

module _ {P : Type 0} where
  -- `common_prefix_len`
  unfoldable pub common_prefix_len : List (SegmentEntry P) → List (SegmentEntry P) → ℕ
  common_prefix_len [] next = 0
  common_prefix_len (a ∷ prev) [] = 0
  common_prefix_len (a ∷ prev) (b ∷ next) =
      if a.type_id == b.type_id then suc (common_prefix_len prev next) else 0

  abbrev pub same_params_at : Option (SegmentEntry P) → Option P → Option P → Bool
  same_params_at (some entry) (some before) (some now) = entry.same_params before now
  same_params_at _ _ _ = false

  -- `Router::shared_len` where a chain is active.
  unfoldable pub shared_len : List (SegmentEntry P) → List P → List (SegmentEntry P) → List P → ℕ
  unfolding common_prefix_len same_run
  shared_len entries captured chain params =
      same_run
        (λ index.
          same_params_at (get_elem? chain index) (get_elem? captured index)
            (get_elem? params index))
        0 (common_prefix_len entries chain)

  abbrev pub keep_run : List (SegmentEntry P) → ℕ
  keep_run [] = 0
  keep_run (entry ∷ rest) = if entry.keep then suc (keep_run rest) else 0

  -- `kept_until`
  unfoldable pub kept_until : List (SegmentEntry P) → ℕ → ℕ
  kept_until entries shared = shared + keep_run (drop shared entries)

  abbrev pub same_type_at : Option (SegmentEntry P) → Option (SegmentEntry P) → Bool
  same_type_at (some a) (some b) = a.type_id == b.type_id
  same_type_at _ _ = false

  -- The two chains have the same segment at an index: its type, and what it captured.
  abbrev pub is_same_at : List (SegmentEntry P) → List P → List (SegmentEntry P) → List P → ℕ → Bool
  is_same_at entries captured chain params index =
      same_type_at (get_elem? entries index) (get_elem? chain index)
      && same_params_at (get_elem? chain index) (get_elem? captured index) (get_elem? params index)

  common_prefix_len-same :
      (prev next : List (SegmentEntry P)) (i : ℕ)
      → i < common_prefix_len prev next
      → same_type_at (get_elem? prev i) (get_elem? next i) ≡ true
  unfolding common_prefix_len
  common_prefix_len-same [] next i h = absurd (omega arith)
  common_prefix_len-same (a ∷ prev) [] i h = absurd (omega arith)
  common_prefix_len-same (a ∷ prev) (b ∷ next) zero h = ground arith
  common_prefix_len-same (a ∷ prev) (b ∷ next) (suc i) h =
      ground (arith, common_prefix_len-same prev next i)

  common_prefix_len-stops :
      (prev next : List (SegmentEntry P))
      → same_type_at
          (get_elem? prev (common_prefix_len prev next))
          (get_elem? next (common_prefix_len prev next))
        ≡ false
  unfolding common_prefix_len
  common_prefix_len-stops [] next = refl
  common_prefix_len-stops (a ∷ prev) [] = refl
  common_prefix_len-stops (a ∷ prev) (b ∷ next) = elim (Bool-cases (a.type_id == b.type_id)) [
    | inl same ↦ rw same (common_prefix_len-stops prev next)
    | inr other ↦ rw other (other)
  ]

  -- `shared_len` is the first index at which the two chains differ, in a segment's type or in what
  -- it captured: they are the same at any index below, and not at that one.
  pub shared_len-IsFirst :
      (entries : List (SegmentEntry P)) (captured : List P) (chain : List (SegmentEntry P))
      (params : List P) (i : ℕ)
      → i < shared_len entries captured chain params
      → (is_same_at entries captured chain params i ≡ true)
        × (is_same_at entries captured chain params (shared_len entries captured chain params)
            ≡ false)
  unfolding shared_len
  shared_len-IsFirst entries captured chain params i h =
      let same = λ (index : ℕ).
        same_params_at (get_elem? chain index) (get_elem? captured index)
          (get_elem? params index) in
      let shape = common_prefix_len entries chain in
      (
        ground (
          arith,
          common_prefix_len-same entries chain i,
          same_run-same same 0 shape i h,
          same_run-le same 0 shape,
        ),
        ground (
          arith,
          common_prefix_len-stops entries chain,
          same_run-stops same 0 shape,
          same_run-le same 0 shape,
        ),
      )

  keep_run-le : (entries : List (SegmentEntry P)) → keep_run entries ≤ length entries
  keep_run-le [] = omega arith
  keep_run-le (entry ∷ rest) = ground (arith, keep_run-le rest)

  length-drop :
      (n : ℕ) (entries : List (SegmentEntry P))
      → n ≤ length entries
      → n + length (drop n entries) ≡ length entries
  length-drop zero entries h = omega arith
  length-drop (suc n) [] h = absurd (omega arith)
  length-drop (suc n) (entry ∷ rest) h = omega (arith, length-drop n rest (omega arith))

  -- What is kept lies between what is shared and the whole chain.
  pub kept_until-le :
      (entries : List (SegmentEntry P)) (shared : ℕ)
      → shared ≤ length entries
      → (shared ≤ kept_until entries shared) × (kept_until entries shared ≤ length entries)
  unfolding kept_until
  kept_until-le entries shared h =
      (omega arith, omega (arith, keep_run-le (drop shared entries), length-drop shared entries h))
