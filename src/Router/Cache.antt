-- ===== src/Router/Cache.antt =====
-- `StateCache` of crates/guinea-router/src/router.rs. The hash map is an association list.
use guinea.Base.{
  ℕ, ◌≤◌, Bool, true, false, not, ◌&&◌, ◌||◌, ◌≡◌, ◌↔◌, ◌⊎◌, refl, sym, ap, ◌∙◌, Option, none, some,
  List, [], ◌∷◌, ◌++◌, if◌then◌else◌, ◌==◌, ltb, length, length-retain-le, any, retain, arith,
  Bool-cases, inl, inr,
}

-- `StateCacheKey`: the segment's index and the hash of its placement.
abbrev pub Key : Type 0
Key = ℕ × ℕ

abbrev pub same_key : Key → Key → Bool
same_key (index, path) (other, place) = index == other && path == place

abbrev pub max_cached_states : ℕ
max_cached_states = 10

-- `HashMap::get`, `contains_key`, `insert` and `remove`.
abbrev pub lookup {ℓ} : {C : Type ℓ} → Key → List (Key × C) → Option C
lookup key [] = none
lookup key ((k, c) ∷ rest) = if same_key k key then some c else lookup key rest

abbrev pub lists : Key → List Key → Bool
lists key order = any (λ k. same_key k key) order

abbrev pub has_key {ℓ} : {C : Type ℓ} → Key → List (Key × C) → Bool
has_key key entries = any (λ e. same_key e.0 key) entries

abbrev pub remove_key {ℓ} : {C : Type ℓ} → Key → List (Key × C) → List (Key × C)
remove_key key entries = retain (λ e. not (same_key e.0 key)) entries

abbrev pub put {ℓ} : {C : Type ℓ} → Key → C → List (Key × C) → List (Key × C)
put key c entries = (key, c) ∷ remove_key key entries

pub record StateCache (C : Type 0) : Type 0 where
  pub entries : List (Key × C)
  pub order : List Key

-- No key is listed twice.
abbrev pub IsDistinct : List Key → Type 0
IsDistinct [] = Unit
IsDistinct (k ∷ order) = (lists k order ≡ false) × IsDistinct order

module _ {C : Type 0} where
  -- The `while` loop of `StateCache::insert`.
  unfoldable pub evict : List (Key × C) → List Key → StateCache C
  evict entries [] = record { entries = entries; order = [] }
  evict entries (oldest ∷ order) =
      if ltb max_cached_states (length (oldest ∷ order))
      then evict (remove_key oldest entries) order
      else record { entries = entries; order = oldest ∷ order }

  -- `StateCache::insert`
  unfoldable pub insert : Key → C → StateCache C → StateCache C
  unfolding evict
  insert key c cache =
      evict (put key c cache.entries)
        (if has_key key cache.entries then cache.order else cache.order ++ key ∷ [])

  -- `StateCache::take`
  unfoldable pub take : Key → StateCache C → Option C × StateCache C
  take key cache = (
    lookup key cache.entries,
    record {
      entries = remove_key key cache.entries;
      order =
          if has_key key cache.entries
          then retain (λ k. not (same_key k key)) cache.order
          else cache.order;
    },
  )

  -- The order lists the keys of the entries, each once.
  abbrev pub ListsKeys : List (Key × C) → List Key → Type 0
  ListsKeys entries order = (key : Key) → has_key key entries ≡ lists key order

  pub record IsSynced (cache : StateCache C) : Type 0 where
    pub distinct : IsDistinct cache.order
    pub listed : ListsKeys cache.entries cache.order
    pub bounded : length cache.order ≤ max_cached_states

same_key_iff : (a b : Key) → (same_key a b ≡ true) ↔ (a ≡ b)
same_key_iff (a, b) (c, d) = ground arith

same_key_refl : (a : Key) → same_key a a ≡ true
same_key_refl a = (same_key_iff a a).1 refl

same_key_comm : (a b : Key) → same_key a b ≡ same_key b a
same_key_comm a b = ground (arith, same_key_iff a b, same_key_iff b a)

-- Two keys that are told apart, where a third is one of them.
same_key-apart : (k a b : Key) → same_key k a ≡ true → same_key k b ≡ same_key a b
same_key-apart k a b e = ap (λ x. same_key x b) ((same_key_iff k a).0 e)

module _ {C : Type 0} where
  has_key-remove_key :
      (key other : Key) (entries : List (Key × C))
      → has_key other (remove_key key entries) ≡ has_key other entries && not (same_key key other)
  has_key-remove_key key other [] = refl
  has_key-remove_key key other ((k, c) ∷ rest) =
      ground (arith, has_key-remove_key key other rest, same_key-apart k key other)

  lookup-remove_key :
      (key other : Key) (entries : List (Key × C))
      → same_key key other ≡ false
      → lookup other (remove_key key entries) ≡ lookup other entries
  lookup-remove_key key other [] d = refl
  lookup-remove_key key other ((k, c) ∷ rest) d =
      ground (arith, lookup-remove_key key other rest d, same_key-apart k key other)

lists-retain :
    (key other : Key) (order : List Key)
    → lists other (retain (λ k. not (same_key k key)) order)
      ≡ lists other order && not (same_key key other)
lists-retain key other [] = refl
lists-retain key other (k ∷ order) =
    ground (arith, lists-retain key other order, same_key-apart k key other)

lists-concat :
    (order : List Key) (key other : Key)
    → lists other (order ++ key ∷ []) ≡ lists other order || same_key key other
lists-concat [] key other = ground arith
lists-concat (k ∷ order) key other = ground (arith, lists-concat order key other)

lists-apart : (a b : Key) (order : List Key) → same_key a b ≡ true → lists b order ≡ lists a order
lists-apart a b order e = ap (λ k. lists k order) (sym ((same_key_iff a b).0 e))

IsDistinct-concat :
    (order : List Key) (key : Key)
    → IsDistinct order
    → lists key order ≡ false
    → IsDistinct (order ++ key ∷ [])
IsDistinct-concat [] key d h = (refl, tt)
IsDistinct-concat (k ∷ order) key d h = (
  rw (lists-concat order key k) (ground (arith, same_key_comm k key, d.0)),
  IsDistinct-concat order key d.1 (ground arith),
)

IsDistinct-retain :
    (key : Key) (order : List Key)
    → IsDistinct order
    → IsDistinct (retain (λ k. not (same_key k key)) order)
IsDistinct-retain key [] d = tt
IsDistinct-retain key (k ∷ order) d = elim (Bool-cases (same_key k key)) [
  | inl same ↦ rw same (IsDistinct-retain key order d.1)
  | inr other ↦ rw other (rw (lists-retain key k order, d.0) refl, IsDistinct-retain key order d.1)
]

module _ {C : Type 0} where
  evict-IsSynced :
      (entries : List (Key × C)) (order : List Key)
      → IsDistinct order
      → ListsKeys entries order
      → IsSynced (evict entries order)
  unfolding evict
  evict-IsSynced entries [] d h = record { distinct = tt; listed = h; bounded = omega arith }
  evict-IsSynced entries (k ∷ order) d h =
      elim (Bool-cases (ltb max_cached_states (length (k ∷ order)))) [
        | inl full ↦ rw full (
            evict-IsSynced (remove_key k entries) order d.1 (λ key.
              has_key-remove_key k key entries
              ∙ rw (h key) (ground (arith, d.0, lists-apart k key order))))
        | inr fits ↦ rw fits (record { distinct = d; listed = h; bounded = ground arith })
      ]

  put-ListsKeys :
      (key : Key) (c : C) (entries : List (Key × C)) (order : List Key)
      → ListsKeys entries order
      → ListsKeys (put key c entries) (if has_key key entries then order else order ++ key ∷ [])
  put-ListsKeys key c entries order h other =
      rw (has_key-remove_key key other entries, h key, h other)
        (elim (Bool-cases (lists key order)) [
          | inl old ↦ rw old (ground (arith, lists-apart key other order))
          | inr new ↦
              rw (new, lists-concat order key other) (ground (arith, lists-apart key other order))
        ])

  -- A store keeps the cache in order: no key twice, the order naming just the keys of the entries,
  -- and ten of them at most.
  pub insert-IsSynced :
      (key : Key) (c : C) (cache : StateCache C) → IsSynced cache → IsSynced (insert key c cache)
  unfolding insert
  insert-IsSynced key c cache s =
      evict-IsSynced (put key c cache.entries) _ (distinct (Bool-cases (has_key key cache.entries)))
        (put-ListsKeys key c cache.entries cache.order s.listed)
    where
      distinct :
          (has_key key cache.entries ≡ true) ⊎ (has_key key cache.entries ≡ false)
          → IsDistinct (if has_key key cache.entries then cache.order else cache.order ++ key ∷ [])
      distinct (inl old) = rw old (s.distinct)
      distinct (inr new) =
          rw new (IsDistinct-concat cache.order key s.distinct (sym (s.listed key) ∙ new))

  -- A take keeps the cache in order.
  pub take-IsSynced :
      (key : Key) (cache : StateCache C) → IsSynced cache → IsSynced (take key cache).1
  unfolding take
  take-IsSynced key cache s = elim (Bool-cases (has_key key cache.entries)) [
    | inl old ↦ rw old (record {
      distinct = IsDistinct-retain key cache.order s.distinct;
      listed = λ other.
          has_key-remove_key key other cache.entries
          ∙ rw (s.listed other, lists-retain key other cache.order);
      bounded = omega (arith, s.bounded, length-retain-le (λ k. not (same_key k key)) cache.order);
    })
    | inr new ↦ rw new (record {
      distinct = s.distinct;
      listed = λ other.
          has_key-remove_key key other cache.entries
          ∙ rw (s.listed other)
              (ground (arith, lists-apart key other cache.order, s.listed key, new));
      bounded = s.bounded;
    })
  ]

  evict-fits :
      (entries : List (Key × C)) (order : List Key)
      → length order ≤ max_cached_states
      → (evict entries order).entries ≡ entries
  unfolding evict
  evict-fits entries [] h = refl
  evict-fits entries (k ∷ order) h = ground arith

  evict-lookup :
      (key : Key) (entries : List (Key × C)) (order : List Key)
      → IsDistinct (order ++ key ∷ [])
      → lookup key (evict entries (order ++ key ∷ [])).entries ≡ lookup key entries
  unfolding evict
  evict-lookup key entries [] d = refl
  evict-lookup key entries (k ∷ order) d =
      elim (Bool-cases (ltb max_cached_states (length (k ∷ (order ++ key ∷ []))))) [
        | inl full ↦ rw full (
            evict-lookup key (remove_key k entries) order d.1
            ∙ lookup-remove_key k key entries
                (ground (arith, d.0, lists-concat order key k, same_key_comm k key)))
        | inr fits ↦ rw fits
      ]

  -- Of a cache in order, what was stored is what the next take of that key gives, however full the
  -- cache was.
  pub take-insert :
      (key : Key) (c : C) (cache : StateCache C)
      → IsSynced cache
      → (take key (insert key c cache)).0 ≡ some c
  unfolding take insert
  take-insert key c cache s = elim (Bool-cases (has_key key cache.entries)) [
    | inl old ↦
        rw (old, evict-fits (put key c cache.entries) cache.order s.bounded, same_key_refl key)
    | inr new ↦ rw new (
        evict-lookup key (put key c cache.entries) cache.order
          (IsDistinct-concat cache.order key s.distinct (sym (s.listed key) ∙ new))
        ∙ rw (same_key_refl key))
  ]
