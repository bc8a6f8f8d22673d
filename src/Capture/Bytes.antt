-- ===== src/Capture/Bytes.antt =====
-- Bytes, as capture/flow_ingest.py reads them: big-endian numbers, and Python's `struct` with the
-- format `!`. A byte is a number; the encoders are the description that the decoders are held to.
use mathlib.Core.List.{append_assoc, append-nil}
use sentinel_pi.Prelude.{
  ℕ, zero, suc, ◌+◌, ◌*◌, ◌/◌, ◌%◌, ◌<◌, ◌≡◌, ◌∙◌, refl, ap, sym, List, [], ◌∷◌, ◌++◌, length,
  length-append, take, drop, take-front, drop-front, arith,
}

abbrev pub Bytes : Type 0
Bytes = List ℕ

-- `int.from_bytes(chunk, "big")`, from the number that the bytes before make.
unfoldable pub from_bytes_after : ℕ → Bytes → ℕ
from_bytes_after n [] = n
from_bytes_after n (b ∷ bs) = from_bytes_after (n * 256 + b) bs

unfoldable pub from_bytes : Bytes → ℕ
unfolding from_bytes_after
from_bytes bs = from_bytes_after 0 bs

-- `struct.unpack`, for a format that is given by the widths of its numbers.
unfoldable pub unpack : List ℕ → Bytes → List ℕ
unfolding from_bytes
unpack [] bs = []
unpack (w ∷ ws) bs = from_bytes (take w bs) ∷ unpack ws (drop w bs)

-- `struct.calcsize`
unfoldable pub calcsize : List ℕ → ℕ
calcsize [] = 0
calcsize (w ∷ ws) = w + calcsize ws

-- The number of values of `w` bytes.
unfoldable pub limit : ℕ → ℕ
limit zero = 1
limit (suc w) = limit w * 256

-- `v.to_bytes(w, "big")`
unfoldable pub to_bytes : ℕ → ℕ → Bytes
to_bytes zero v = []
to_bytes (suc w) v = to_bytes w (v / 256) ++ (v % 256) ∷ []

-- `struct.pack`
unfoldable pub pack : List ℕ → List ℕ → Bytes
unfolding to_bytes
pack (w ∷ ws) (v ∷ vs) = to_bytes w v ++ pack ws vs
pack _ _ = []

-- The numbers fit the format: as many as it has, each within its width.
abbrev pub IsPackable : List ℕ → List ℕ → Type 0
IsPackable [] [] = Unit
IsPackable (w ∷ ws) (v ∷ vs) = (v < limit w) × IsPackable ws vs
IsPackable _ _ = ⊥

pub length-to_bytes : (w v : ℕ) → length (to_bytes w v) ≡ w
unfolding to_bytes
length-to_bytes zero v = refl
length-to_bytes (suc w) v =
    omega
      (arith, length-to_bytes w (v / 256), length-append (to_bytes w (v / 256)) ((v % 256) ∷ []))

from_bytes_after-append :
    (n b : ℕ) (bs : Bytes) → from_bytes_after n (bs ++ b ∷ []) ≡ from_bytes_after n bs * 256 + b
unfolding from_bytes_after
from_bytes_after-append n b [] = refl
from_bytes_after-append n b (c ∷ bs) = from_bytes_after-append (n * 256 + c) b bs

pub from_bytes-to_bytes : (w v : ℕ) → v < limit w → from_bytes (to_bytes w v) ≡ v
unfolding from_bytes to_bytes limit
from_bytes-to_bytes zero v h = omega arith
from_bytes-to_bytes (suc w) v h = omega (
  arith,
  from_bytes_after-append 0 (v % 256) (to_bytes w (v / 256)),
  from_bytes-to_bytes w (v / 256) (omega arith),
)

pub length-pack : (ws vs : List ℕ) → IsPackable ws vs → length (pack ws vs) ≡ calcsize ws
unfolding pack calcsize
length-pack [] [] h = refl
length-pack [] (v ∷ vs) h = elim h [ ]
length-pack (w ∷ ws) [] h = elim h [ ]
length-pack (w ∷ ws) (v ∷ vs) h =
    omega
      (arith, length-append (to_bytes w v) (pack ws vs), length-to_bytes w v, length-pack ws vs h.1)

pub unpack-pack :
    (ws vs : List ℕ) (rest : Bytes) → IsPackable ws vs → unpack ws (pack ws vs ++ rest) ≡ vs
unfolding unpack pack
unpack-pack [] [] rest h = refl
unpack-pack [] (v ∷ vs) rest h = elim h [ ]
unpack-pack (w ∷ ws) [] rest h = elim h [ ]
unpack-pack (w ∷ ws) (v ∷ vs) rest h =
    let all = to_bytes w v ++ (pack ws vs ++ rest) in
    let whole = append_assoc (to_bytes w v) (pack ws vs) rest in
    rw
      (
        whole,
        take-front w (to_bytes w v) (pack ws vs ++ rest) (length-to_bytes w v),
        drop-front w (to_bytes w v) (pack ws vs ++ rest) (length-to_bytes w v),
        from_bytes-to_bytes w v h.0,
        unpack-pack ws vs rest h.1,
      )
      refl

-- The packed bytes and no more.
pub unpack-pack_nil : (ws vs : List ℕ) → IsPackable ws vs → unpack ws (pack ws vs) ≡ vs
unpack-pack_nil ws vs h = ap (unpack ws) (sym (append-nil (pack ws vs))) ∙ unpack-pack ws vs [] h
