-- ===== src/Client/Cache.antt =====
-- The well-formed caches.
use busd.Prelude.{
  ℕ, ◌≤◌, ◌<◌, ◌≡◌, refl, true, false, List, [], ◌∷◌, ◌++◌, length, arith, ◌==◌, if◌then◌else◌,
  Bool-cases, inl, inr, length-append,
}
use busd.Order.{bytes_order, same, same_refl, same→eq}
use busd.Map.{contains, set_insert}
use busd.Map.Laws.{contains-set_insert}
use busd.Protocol.Types.{MessageId}
use busd.Client.Dedup.{DeduplicationCache, new_cache, set_remove, expire, expire_from, record_id}

abbrev pub IsDistinct : List MessageId → Type 0
IsDistinct [] = Unit {0}
IsDistinct (id ∷ ids) = (contains id ids ≡ false) × IsDistinct ids

-- The set and the queue of a cache have the same members, each once, and at most as many as the
-- capacity.
pub record IsCache (c : DeduplicationCache) : Type 0 where
  pub members : (id : MessageId) → contains id c.entries ≡ contains id c.order
  pub distinct : IsDistinct c.order
  pub bounded : length c.order ≤ c.capacity

contains-set_remove :
    (j k : MessageId) (s : List MessageId)
    → contains j (set_remove k s) ≡ (if same j k then false else contains j s)
unfolding set_remove
contains-set_remove j k [] = ground arith
contains-set_remove j k (i ∷ s) = ground (
  arith,
  contains-set_remove j k s,
  same→eq j k,
  same→eq j i,
  same→eq k i,
  same_refl j,
  same_refl k,
)

contains-last :
    (j k : MessageId) (s : List MessageId)
    → contains j (s ++ k ∷ []) ≡ (if same j k then true else contains j s)
contains-last j k [] = refl
contains-last j k (i ∷ s) = ground (arith, contains-last j k s)

IsDistinct-last :
    (k : MessageId) (s : List MessageId)
    → contains k s ≡ false
    → IsDistinct s
    → IsDistinct (s ++ k ∷ [])
IsDistinct-last k [] h d = (refl, tt)
IsDistinct-last k (i ∷ s) h d =
    ground (arith, contains-last i k s, IsDistinct-last k s, same→eq i k, same_refl k)

pub new_cache-IsCache : (n : ℕ) → IsCache (new_cache n)
new_cache-IsCache n = record { members = λ id. refl; distinct = tt; bounded = omega arith }

-- The cache without its oldest member.
expire_from-IsCache :
    (order : List MessageId) (c : DeduplicationCache)
    → c.order ≡ order
    → IsCache c
    → IsCache (expire_from order c)
expire_from-IsCache [] c e w = w
expire_from-IsCache (x ∷ order) c e w =
    let d : IsDistinct (x ∷ order) = rw e at w.distinct in
    let l : length (x ∷ order) ≤ c.capacity = rw e at w.bounded in
    record {
      members = λ j.
          let m : contains j c.entries ≡ contains j (x ∷ order) = rw e at (w.members j) in
          ground (arith, contains-set_remove j x c.entries, same→eq j x, m, d.0);
      distinct = d.1;
      bounded = omega arith;
    }

pub expire_from-capacity :
    (order : List MessageId) (c : DeduplicationCache) → (expire_from order c).capacity ≡ c.capacity
expire_from-capacity [] c = refl
expire_from-capacity (x ∷ order) c = refl

expire_from-room :
    (id : MessageId) (order : List MessageId) (c : DeduplicationCache)
    → c.order ≡ order
    → 0 < length order
    → contains id order ≡ false
    → (length (expire_from order c).order < length order)
      × (contains id (expire_from order c).order ≡ false)
expire_from-room id [] c e n h = absurd (ground arith)
expire_from-room id (x ∷ order) c e n h = (omega arith, ground arith)

push-IsCache :
    (id : MessageId) (c : DeduplicationCache)
    → IsCache c
    → contains id c.order ≡ false
    → length c.order < c.capacity
    → IsCache (record c { order = c.order ++ id ∷ []; entries = set_insert id c.entries })
push-IsCache id c w h l = record {
  members = λ j.
      ground (arith, contains-set_insert j id c.entries, contains-last j id c.order, w.members j);
  distinct = IsDistinct-last id c.order h w.distinct;
  bounded = ground (arith, length-append c.order (id ∷ []));
}

pub record_id-IsCache :
    (id : MessageId) (c : DeduplicationCache) → IsCache c → IsCache (record_id id c).1
unfolding record_id
record_id-IsCache id c w = elim (Bool-cases (contains id c.entries)) [
  | inl e ↦ rw e w
  | inr e ↦ elim (Bool-cases (c.capacity == 0)) [
    | inl z ↦ rw (e, z) w
    | inr z ↦ elim (Bool-cases (length c.order == c.capacity)) [
      | inl f ↦
          let h : contains id c.order ≡ false = ground (arith, w.members id) in
          let n : 0 < length c.order = ground arith in
          let r = expire_from-room id c.order c refl n h in
          rw (e, z, f)
            (push-IsCache id (expire c) (expire_from-IsCache c.order c refl w) r.1
              (ground (arith, r.0, expire_from-capacity c.order c)))
      | inr f ↦
          let h : contains id c.order ≡ false = ground (arith, w.members id) in
          let n : length c.order < c.capacity = ground (arith, w.bounded) in
          rw (e, z, f) (push-IsCache id c w h n)
    ]
  ]
]

pub record_id-capacity :
    (id : MessageId) (c : DeduplicationCache) → (record_id id c).1.capacity ≡ c.capacity
unfolding record_id
record_id-capacity id c = ground (arith, expire_from-capacity c.order c)
