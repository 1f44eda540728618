-- ===== src/Protocol/RoundTrip/Filters.antt =====
-- The filter block of a subscription, which is ordered by the encodings of its filters.
use busd.Prelude.{
  ℕ, suc, ◌-◌, ◌≡◌, refl, ap, Bool, false, ◌++◌, List, [], ◌∷◌, ok, arith, Option, none, some,
  length, take, All, append_assoc, append-nil, length-append, take-append, Result-cases, inl, inr,
  ltb, reject_if,
}
use busd.Order.{compare_bytes_swap}
use busd.Protocol.Types.{
  Bytes, HeaderFilter, exists, not_exists, equal, not_equal, prefix, FrameLimits, limit_exceeded,
  non_canonical,
}
use busd.Protocol.Limits.{IsFilter}
use busd.Protocol.Writer.{
  ◌⊕◌, push_u8, push_length16, push_name, push_value, push_filter, encode_filters, any_descent,
  concat, push_encoded, push_filters,
}
use busd.Protocol.Reader.{
  ◌>>=◌, read_u8, read_u16, read_name, read_value, not_after, read_filter, read_filters_loop,
  read_filters,
}
use busd.Protocol.RoundTrip.Rules.{Reads, Reads-checked, Reads-bind, Reads-then, not_rejected}
use busd.Protocol.RoundTrip.Scalars.{u8-Reads, length16-Reads}
use busd.Protocol.RoundTrip.Names.{name-Reads}
use busd.Protocol.RoundTrip.Values.{value-Reads}

pub filter-Reads : (f : HeaderFilter) → IsFilter f → Reads (push_filter f) read_filter f
unfolding push_filter read_filter
filter-Reads (exists n) h =
    Reads-bind (push_u8 0) (push_name n) read_u8 _ 0 (exists n) (u8-Reads 0)
      (Reads-then (push_name n) read_name _ n (exists n) (name-Reads n) (λ rest. refl))
filter-Reads (not_exists n) h =
    Reads-bind (push_u8 1) (push_name n) read_u8 _ 1 (not_exists n) (u8-Reads 1)
      (Reads-then (push_name n) read_name _ n (not_exists n) (name-Reads n) (λ rest. refl))
filter-Reads (equal n v) h =
    Reads-bind (push_u8 2) (push_name n ⊕ push_value v) read_u8 _ 2 (equal n v) (u8-Reads 2) (
      Reads-bind (push_name n) (push_value v) read_name _ n (equal n v) (name-Reads n)
        (Reads-then (push_value v) read_value _ v (equal n v) (value-Reads v h) (λ rest. refl)))
filter-Reads (not_equal n v) h =
    Reads-bind (push_u8 3) (push_name n ⊕ push_value v) read_u8 _ 3 (not_equal n v) (u8-Reads 3) (
      Reads-bind (push_name n) (push_value v) read_name _ n (not_equal n v) (name-Reads n)
        (Reads-then (push_value v) read_value _ v (not_equal n v) (value-Reads v h) (λ rest. refl)))
filter-Reads (prefix n v) h =
    Reads-bind (push_u8 4) (push_name n ⊕ push_value v) read_u8 _ 4 (prefix n v) (u8-Reads 4) (
      Reads-bind (push_name n) (push_value v) read_name _ n (prefix n v) (name-Reads n)
        (Reads-then (push_value v) read_value _ v (prefix n v) (value-Reads v h) (λ rest. refl)))

-- The previous encoding, where there is one, in front of the others.
abbrev since : Option Bytes → List Bytes → List Bytes
since none l = l
since (some p) l = p ∷ l

since-not_after :
    (previous : Option Bytes) (x : Bytes) (l : List Bytes)
    → any_descent (since previous (x ∷ l)) ≡ false
    → not_after previous x ≡ false
unfolding any_descent
since-not_after none x l h = refl
since-not_after (some p) x l h = ground (arith, compare_bytes_swap p x)

since-tail :
    (previous : Option Bytes) (x : Bytes) (l : List Bytes)
    → any_descent (since previous (x ∷ l)) ≡ false
    → any_descent (x ∷ l) ≡ false
unfolding any_descent
since-tail none x l h = h
since-tail (some p) x l h = ground arith

consumed : (x y : Bytes) → take (length (x ++ y) - length y) (x ++ y) ≡ x
consumed x y =
    let e : length (x ++ y) - length y ≡ length x = omega (arith, length-append x y) in
    rw e (take-append x y)

-- A successful encoding, taken apart.
encode_filters_cons :
    (f : HeaderFilter) (fs : List HeaderFilter) (encoded : List Bytes)
    → encode_filters (f ∷ fs) ≡ ok encoded
    → (x : Bytes) × (l : List Bytes) × (push_filter f ≡ ok x)
      × (encode_filters fs ≡ ok l)
      × (encoded ≡ x ∷ l)
unfolding encode_filters
encode_filters_cons f fs encoded h = elim (Result-cases (push_filter f)) [
  | inr (e, p) ↦ absurd (ground arith)
  | inl (x, p) ↦ elim (Result-cases (encode_filters fs)) [
    | inr (e, q) ↦ absurd (ground arith)
    | inl (l, q) ↦ (x, l, p, q, ground arith)
  ]
]

length-encode_filters :
    (fs : List HeaderFilter) (encoded : List Bytes)
    → encode_filters fs ≡ ok encoded
    → length encoded ≡ length fs
length-encode_filters [] encoded h = unfold encode_filters in ground arith
length-encode_filters (f ∷ fs) encoded h =
    let (x, l, p, q, e) = encode_filters_cons f fs encoded h in
    rw e (ap suc (length-encode_filters fs l q))

-- One round of the loop, over a filter whose bytes are `x`.
filters_loop_step :
    (n : ℕ) (previous : Option Bytes) (acc : List HeaderFilter) (f : HeaderFilter) (x y : Bytes)
    → read_filter (x ++ y) ≡ ok (f, y)
    → not_after previous x ≡ false
    → read_filters_loop (suc n) previous acc (x ++ y)
      ≡ read_filters_loop n (some x) (acc ++ f ∷ []) y
unfolding read_filters_loop
filters_loop_step n previous acc f x y h k = rw (h, ◌>>=◌) (rw (consumed x y, k) refl)

filters_loop-Reads :
    (fs : List HeaderFilter) (previous : Option Bytes) (acc : List HeaderFilter)
    (encoded : List Bytes) (rest : Bytes)
    → All IsFilter fs
    → encode_filters fs ≡ ok encoded
    → any_descent (since previous encoded) ≡ false
    → read_filters_loop (length fs) previous acc (concat encoded ++ rest) ≡ ok (acc ++ fs, rest)
filters_loop-Reads [] previous acc encoded rest h e d =
    unfold encode_filters read_filters_loop in ground (arith, append-nil acc)
filters_loop-Reads (f ∷ fs) previous acc encoded rest h e d =
    let (x, l, p, q, same) = encode_filters_cons f fs encoded e in
    let d' : any_descent (since previous (x ∷ l)) ≡ false = rw same at d in
    rw (same, append_assoc)
      (rw
        (filters_loop_step (length fs) previous acc f x (concat l ++ rest)
          ((filter-Reads f h.0).at x p (concat l ++ rest)) (since-not_after previous x l d'))
        (rw (← append_assoc acc (f ∷ []) fs) (
          filters_loop-Reads fs (some x) (acc ++ f ∷ []) l rest h.1 q
            (since-tail previous x l d'))))

pub filters-Reads :
    (fs : List HeaderFilter) (limits : FrameLimits)
    → All IsFilter fs
    → Reads (push_filters fs limits) (read_filters limits) fs
unfolding push_filters read_filters push_encoded
filters-Reads fs limits h =
    let over : Bool = ltb limits.maximum_filters (length fs) in
    Reads-checked (reject_if over (limit_exceeded "filter count")) _ _ fs λ p.
      elim (Result-cases (encode_filters fs)) [
        | inr (e, q) ↦ rw q (record { at = λ code r rest. cc })
        | inl (encoded, q) ↦ rw q (
            Reads-checked (reject_if (any_descent encoded) (non_canonical "filters"))
              (push_length16 (length encoded) "filter count" ⊕ ok (concat encoded)) _ fs
              λ r.
                Reads-bind (push_length16 (length encoded) "filter count") (ok (concat encoded))
                  read_u16 _ (length encoded) fs (length16-Reads (length encoded) "filter count")
                  (rw (length-encode_filters fs encoded q, not_rejected over _ p)
                    (record {
                      at = λ code c rest.
                          let same : code ≡ concat encoded = cc in
                          rw same (
                            filters_loop-Reads fs none [] encoded rest h q
                              (not_rejected (any_descent encoded) _ r));
                    })))
      ]
