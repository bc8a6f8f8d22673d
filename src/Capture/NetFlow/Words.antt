-- ===== src/Capture/NetFlow/Words.antt =====
-- The two numbers of two bytes that begin a packet, a set, a template and a field of a template.
use sentinel_pi.Prelude.{ℕ, ◌≡◌, ap, List, ◌∷◌, ◌++◌}
use sentinel_pi.Capture.Bytes.{Bytes, pack, unpack, IsPackable, unpack-pack}
use sentinel_pi.Capture.NetFlow.{field, word_0, word_1}

module _ (ws : List ℕ) (a b : ℕ) (vs : List ℕ) (rest : Bytes)
    (h : IsPackable (2 ∷ 2 ∷ ws) (a ∷ b ∷ vs)) where
  pub word_0-pack : word_0 (pack (2 ∷ 2 ∷ ws) (a ∷ b ∷ vs) ++ rest) ≡ a
  unfolding word_0 unpack field
  word_0-pack = ap (λ l. field l 0) (unpack-pack (2 ∷ 2 ∷ ws) (a ∷ b ∷ vs) rest h)

  pub word_1-pack : word_1 (pack (2 ∷ 2 ∷ ws) (a ∷ b ∷ vs) ++ rest) ≡ b
  unfolding word_1 unpack field
  word_1-pack = ap (λ l. field l 1) (unpack-pack (2 ∷ 2 ∷ ws) (a ∷ b ∷ vs) rest h)
