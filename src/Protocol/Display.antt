-- ===== src/Protocol/Display.antt =====
-- The text of a peer's identifier, `PeerId`'s `Display`.
use busd.Prelude.{ℕ, zero, suc, ◌+◌, ◌/◌, ◌%◌, ltb, [], ◌∷◌, if◌then◌else◌, ◌≡◌, refl}
use busd.Protocol.Types.{Text, PeerId}
use busd.Protocol.Bytes.{ascii}

-- Decimal digits; a u64 has at most twenty.
digits : ℕ → ℕ → Text → Text
digits zero n acc = acc
digits (suc fuel) n acc =
    let rest = digits fuel (n / 10) ((48 + n % 10) ∷ acc) in
    if ltb n 10 then (48 + n) ∷ acc else rest

unfoldable pub decimal : ℕ → Text
unfolding digits
decimal n = digits 20 n []

unfoldable pub peer_label : PeerId → Text
unfolding decimal
peer_label peer = b':' ∷ decimal peer

peer_label_test : peer_label 1205 ≡ ascii ":1205"
unfolding peer_label
peer_label_test = refl
