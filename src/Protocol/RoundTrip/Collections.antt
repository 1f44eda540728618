-- ===== src/Protocol/RoundTrip/Collections.antt =====
-- Header blocks, capability blocks and filter blocks.
use busd.Prelude.{
  ◌≡◌, refl, Bool, false, ◌++◌, List, [], ◌∷◌, arith, Option, none, some, length, append_assoc,
  append-nil, ltb, reject_if,
}
use busd.Order.{compare_bytes_swap, bytes_order}
use busd.Map.{keys}
use busd.Map.Keys.{
  Above, IsAscending, Entries, Below, Below-append, insert_last, SetBelow, SetBelow-append,
  set_insert_last,
}
use busd.Protocol.Types.{Text, Headers, Capabilities, HeaderValue, FrameLimits, limit_exceeded}
use busd.Protocol.Limits.{IsValue, IsHeaders, IsCapabilities}
use busd.Protocol.Writer.{
  ◌⊕◌, push_length16, push_name, push_value, push_entries, push_headers, push_names,
  push_capabilities,
}
use busd.Protocol.Reader.{
  read_u16, read_name, read_value, not_after, read_entries, read_headers, read_names,
  read_capabilities,
}
use busd.Protocol.RoundTrip.Rules.{Reads, Reads-checked, Reads-bind, Reads-pure, not_rejected}
use busd.Protocol.RoundTrip.Scalars.{length16-Reads}
use busd.Protocol.RoundTrip.Names.{name-Reads}
use busd.Protocol.RoundTrip.Values.{value-Reads}

-- `ks` ascends, from above the previous key where there is one.
abbrev Follows : Option Text → List Text → Type 0
Follows none ks = IsAscending ks
Follows (some p) ks = Above p ks

abbrev BelowFirst : Headers → List Text → Type 0
BelowFirst acc [] = Unit {0}
BelowFirst acc (k ∷ ks) = Below k acc

Follows-not_after :
    (previous : Option Text) (k : Text) (ks : List Text)
    → Follows previous (k ∷ ks)
    → not_after previous k ≡ false
Follows-not_after none k ks h = refl
Follows-not_after (some p) k ks h = ground (arith, compare_bytes_swap p k h.0)

Follows-tail :
    (previous : Option Text) (k : Text) (ks : List Text) → Follows previous (k ∷ ks) → Above k ks
Follows-tail none k ks h = h
Follows-tail (some p) k ks h = h.1

BelowFirst-next :
    (acc : Headers) (k : Text) (v : HeaderValue) (ks : List Text)
    → Below k acc
    → Above k ks
    → BelowFirst (acc ++ (k, v) ∷ []) ks
BelowFirst-next acc k v [] b a = tt
BelowFirst-next acc k v (l ∷ ks) b a = Below-append k l v acc a.0 b

entries-Reads :
    (es : Headers) (previous : Option Text) (acc : Headers)
    → Follows previous (keys es)
    → BelowFirst acc (keys es)
    → Entries (λ name value. IsValue value) es
    → Reads (push_entries es) (read_entries (length es) previous acc) (acc ++ es)
unfolding push_entries read_entries
entries-Reads [] previous acc f b e = rw append-nil (Reads-pure acc)
entries-Reads ((k, v) ∷ es) previous acc f b e =
    let after = Follows-tail previous k (keys es) f in
    let last = insert_last k v acc b in
    Reads-bind (push_name k) (push_value v ⊕ push_entries es) read_name _ k (acc ++ (k, v) ∷ es)
      (name-Reads k)
      (rw (Follows-not_after previous k (keys es) f) (
        Reads-bind (push_value v) (push_entries es) read_value _ v (acc ++ (k, v) ∷ es)
          (value-Reads v e.0)
          (rw (last, ← append_assoc acc ((k, v) ∷ []) es)
            (entries-Reads es (some k) (acc ++ (k, v) ∷ []) after
              (BelowFirst-next acc k v (keys es) b after) e.1))))

BelowFirst-nil : (ks : List Text) → BelowFirst [] ks
BelowFirst-nil [] = tt
BelowFirst-nil (k ∷ ks) = tt

pub headers-Reads :
    (hs : Headers) (limits : FrameLimits)
    → IsHeaders hs
    → Reads (push_headers hs limits) (read_headers limits) hs
unfolding push_headers read_headers
headers-Reads hs limits h =
    let over : Bool = ltb limits.maximum_headers (length hs) in
    Reads-checked (reject_if over (limit_exceeded "header count"))
      (push_length16 (length hs) "header count" ⊕ push_entries hs) _ hs
      λ p.
        Reads-bind (push_length16 (length hs) "header count") (push_entries hs) read_u16 _
          (length hs) hs (length16-Reads (length hs) "header count")
          (rw (not_rejected over _ p) (entries-Reads hs none [] h.0 (BelowFirst-nil (keys hs)) h.1))

abbrev SetBelowFirst : Capabilities → List Text → Type 0
SetBelowFirst acc [] = Unit {0}
SetBelowFirst acc (k ∷ ks) = SetBelow k acc

SetBelowFirst-nil : (ks : List Text) → SetBelowFirst [] ks
SetBelowFirst-nil [] = tt
SetBelowFirst-nil (k ∷ ks) = tt

SetBelowFirst-next :
    (acc : Capabilities) (k : Text) (ks : List Text)
    → SetBelow k acc
    → Above k ks
    → SetBelowFirst (acc ++ k ∷ []) ks
SetBelowFirst-next acc k [] b a = tt
SetBelowFirst-next acc k (l ∷ ks) b a = SetBelow-append k l acc a.0 b

names-Reads :
    (cs : Capabilities) (previous : Option Text) (acc : Capabilities)
    → Follows previous cs
    → SetBelowFirst acc cs
    → Reads (push_names cs) (read_names (length cs) previous acc) (acc ++ cs)
unfolding push_names read_names
names-Reads [] previous acc f b = rw append-nil (Reads-pure acc)
names-Reads (k ∷ cs) previous acc f b =
    let after = Follows-tail previous k cs f in
    Reads-bind (push_name k) (push_names cs) read_name _ k (acc ++ k ∷ cs) (name-Reads k) (
      rw (Follows-not_after previous k cs f) (
        rw (set_insert_last k acc b, ← append_assoc acc (k ∷ []) cs)
          (names-Reads cs (some k) (acc ++ k ∷ []) after (SetBelowFirst-next acc k cs b after))))

pub capabilities-Reads :
    (cs : Capabilities) (limits : FrameLimits)
    → IsCapabilities cs
    → Reads (push_capabilities cs limits) (read_capabilities limits) cs
unfolding push_capabilities read_capabilities
capabilities-Reads cs limits h =
    let over : Bool = ltb limits.maximum_capabilities (length cs) in
    Reads-checked (reject_if over (limit_exceeded "capability count"))
      (push_length16 (length cs) "capability count" ⊕ push_names cs) _ cs
      λ p.
        Reads-bind (push_length16 (length cs) "capability count") (push_names cs) read_u16 _
          (length cs) cs (length16-Reads (length cs) "capability count")
          (rw (not_rejected over _ p) (names-Reads cs none [] h (SetBelowFirst-nil cs)))
