-- ===== src/Client/Window.antt =====
-- What a deduplication cache remembers.
use busd.Prelude.{
  ℕ, suc, ◌+◌, ◌≤◌, ◌<◌, ◌≡◌, refl, ◌∙◌, true, false, not, List, [], ◌∷◌, ◌++◌, length, arith, ◌==◌,
  Bool-cases, inl, inr, length-append, ◌⊎◌,
}
use busd.Order.{bytes_order, same, same_refl}
use busd.Map.{contains}
use busd.Protocol.Types.{MessageId}
use busd.Client.Dedup.{DeduplicationCache, new_cache, expire, expire_from, record_id}
use busd.Client.Cache.{IsCache, new_cache-IsCache, record_id-IsCache, record_id-capacity}

-- `id` is among the last `k + 1` of the queue.
abbrev pub Recent : MessageId → ℕ → List MessageId → Type 0
Recent id k [] = ⊥
Recent id k (x ∷ xs) = ((same id x ≡ true) × (length xs ≤ k)) ⊎ Recent id k xs

Recent-contains :
    (id : MessageId) (k : ℕ) (xs : List MessageId) → Recent id k xs → contains id xs ≡ true
Recent-contains id k [] r = absurd r
Recent-contains id k (x ∷ xs) (inl h) = ground arith
Recent-contains id k (x ∷ xs) (inr h) = ground (arith, Recent-contains id k xs h)

Recent-more : (id : MessageId) (k : ℕ) (xs : List MessageId) → Recent id k xs → Recent id (suc k) xs
Recent-more id k [] r = r
Recent-more id k (x ∷ xs) (inl h) = inl (h.0, omega (arith, h.1))
Recent-more id k (x ∷ xs) (inr h) = inr (Recent-more id k xs h)

Recent-last :
    (id m : MessageId) (k : ℕ) (xs : List MessageId)
    → Recent id k xs
    → Recent id (suc k) (xs ++ m ∷ [])
Recent-last id m k [] r = absurd r
Recent-last id m k (x ∷ xs) (inl h) = inl (h.0, omega (arith, h.1, length-append xs (m ∷ [])))
Recent-last id m k (x ∷ xs) (inr h) = inr (Recent-last id m k xs h)

Recent-new : (id : MessageId) (xs : List MessageId) → Recent id 0 (xs ++ id ∷ [])
Recent-new id [] = inl (same_refl id, omega arith)
Recent-new id (x ∷ xs) = inr (Recent-new id xs)

-- The oldest of a queue longer than that may go.
Recent-expire_from :
    (id : MessageId) (k : ℕ) (order : List MessageId) (c : DeduplicationCache)
    → c.order ≡ order
    → suc k < length order
    → Recent id k order
    → Recent id k (expire_from order c).order
Recent-expire_from id k [] c e l r = absurd r
Recent-expire_from id k (x ∷ order) c e l (inl h) = absurd (ground (arith, h.1))
Recent-expire_from id k (x ∷ order) c e l (inr h) = h

Recent-record_id :
    (id m : MessageId) (k : ℕ) (c : DeduplicationCache)
    → suc k < c.capacity
    → Recent id k c.order
    → Recent id (suc k) (record_id m c).1.order
unfolding record_id
Recent-record_id id m k c l r = elim (Bool-cases (contains m c.entries)) [
  | inl e ↦ rw e (Recent-more id k c.order r)
  | inr e ↦ elim (Bool-cases (c.capacity == 0)) [
    | inl z ↦ rw (e, z) (Recent-more id k c.order r)
    | inr z ↦ elim (Bool-cases (length c.order == c.capacity)) [
      | inl f ↦
          let n : suc k < length c.order = ground arith in
          rw (e, z, f)
            (Recent-last id m k (expire c).order (Recent-expire_from id k c.order c refl n r))
      | inr f ↦ rw (e, z, f) (Recent-last id m k c.order r)
    ]
  ]
]

-- One identifier after the other.
unfoldable pub record_all : List MessageId → DeduplicationCache → DeduplicationCache
record_all [] c = c
record_all (m ∷ ms) c = record_all ms (record_id m c).1

record_all-IsCache :
    (ms : List MessageId) (c : DeduplicationCache) → IsCache c → IsCache (record_all ms c)
unfolding record_all
record_all-IsCache [] c w = w
record_all-IsCache (m ∷ ms) c w = record_all-IsCache ms (record_id m c).1 (record_id-IsCache m c w)

Recent-record_all :
    (id : MessageId) (ms : List MessageId) (k : ℕ) (c : DeduplicationCache)
    → k + length ms < c.capacity
    → Recent id k c.order
    → (n : ℕ) × Recent id n (record_all ms c).order
unfolding record_all
Recent-record_all id [] k c l r = (k, r)
Recent-record_all id (m ∷ ms) k c l r =
    Recent-record_all id ms (suc k) (record_id m c).1 (omega (arith, record_id-capacity m c, l))
      (Recent-record_id id m k c (omega (arith, l)) r)

Recent-recorded :
    (id : MessageId) (c : DeduplicationCache)
    → 0 < c.capacity
    → (record_id id c).0 ≡ true
    → Recent id 0 (record_id id c).1.order
unfolding record_id
Recent-recorded id c l h = elim (Bool-cases (contains id c.entries)) [
  | inl e ↦ absurd (ground arith)
  | inr e ↦ let z : (c.capacity == 0) ≡ false = ground arith in rw (e, z) (Recent-new id _)
]

record_id-new :
    (id : MessageId) (c : DeduplicationCache)
    → IsCache c
    → (record_id id c).0 ≡ not (contains id c.order)
unfolding record_id
record_id-new id c w = ground (arith, w.members id)

record_all-capacity :
    (ms : List MessageId) (c : DeduplicationCache) → (record_all ms c).capacity ≡ c.capacity
unfolding record_all
record_all-capacity [] c = refl
record_all-capacity (m ∷ ms) c = record_all-capacity ms (record_id m c).1 ∙ record_id-capacity m c

record_id-known :
    (id : MessageId) (c : DeduplicationCache)
    → contains id c.entries ≡ true
    → (record_id id c).0 ≡ false
unfolding record_id
record_id-known id c h = rw h refl

-- An identifier that a well-formed cache of some capacity has just recorded as new is recognized
-- again after fewer other identifiers than the capacity, whichever they are.
pub record_id_window :
    (c : DeduplicationCache) (id : MessageId) (ms : List MessageId)
    → IsCache c
    → (record_id id c).0 ≡ true
    → length ms < c.capacity
    → (record_id id (record_all ms (record_id id c).1)).0 ≡ false
record_id_window c id ms w h l =
    let c' = (record_id id c).1 in
    let d = record_all ms c' in
    let v : IsCache d = record_all-IsCache ms c' (record_id-IsCache id c w) in
    let fits : 0 + length ms < c'.capacity = omega (arith, record_id-capacity id c, l) in
    let first : Recent id 0 c'.order = Recent-recorded id c (omega (arith, l)) h in
    let (n, r) = Recent-record_all id ms 0 c' fits first in
    record_id-known id d (v.members id ∙ Recent-contains id n d.order r)

-- Whatever identifiers a new cache records, one is reported as new exactly when it is not retained,
-- and at most as many as the capacity are retained, each once.
pub record_all_retains :
    (capacity : ℕ) (ms : List MessageId) (id : MessageId)
    → IsCache (record_all ms (new_cache capacity))
      × ((record_id id (record_all ms (new_cache capacity))).0
          ≡ not (contains id (record_all ms (new_cache capacity)).order))
      × ((record_all ms (new_cache capacity)).capacity ≡ capacity)
record_all_retains capacity ms id =
    let c = record_all ms (new_cache capacity) in
    let w : IsCache c = record_all-IsCache ms (new_cache capacity) (new_cache-IsCache capacity) in
    (w, record_id-new id c w, record_all-capacity ms (new_cache capacity))
