-- ===== src/Scanner/Lanes.antt =====
-- Words of internal/scanner/swar/swar.go lane by lane: an operation that neither carries nor borrows over a
-- lane is one on bytes.
use go_yaml.Scanner.Swar.{pack, complement, plus, minus, lo}
use go_yaml.Base.Bits.{bit_and-split, bit_or-split}
use go_yaml.Base.Xor.{bit_xor-split, bit_and-bound, bit_or-bound, bit_xor-bound}
use go_yaml.Base.{
  ℕ, ◌+◌, ◌-◌, ◌*◌, ◌^◌, ◌≤◌, ◌<◌, Bool, true, ◌&&◌, [], ◌∷◌, map, ltb, length, length-map,
  replicate, Bytes, ◌≡◌, refl, ap, sym, ◌∙◌, arith,
}
use native.Mathlib.Nat.{pow-suc}
use Prim.Native.Nat.{bit_and, bit_or, bit_xor}

unfoldable pub are_bytes : Bytes → Bool
are_bytes [] = true
are_bytes (b ∷ bs) = ltb b 256 && are_bytes bs

pack-bound : (bs : Bytes) → are_bytes bs ≡ true → pack bs < 256 ^ length bs
unfolding pack are_bytes
pack-bound [] h = omega arith
pack-bound (b ∷ bs) h = ground (arith, h, pack-bound bs, pow-suc 256 (length bs))

-- a function from bytes to bytes
abbrev pub FitsByte : (ℕ → ℕ) → Type 0
FitsByte f = (b : ℕ) → b < 256 → f b < 256

pub map-are_bytes :
    (f : ℕ → ℕ) (bs : Bytes) → FitsByte f → are_bytes bs ≡ true → are_bytes (map f bs) ≡ true
unfolding are_bytes
map-are_bytes f [] fits h = refl
map-are_bytes f (b ∷ bs) fits h = ground (arith, h, fits b, map-are_bytes f bs fits)

-- A joint operation on words whose numbers split at a byte is the operation on each byte.
pack-map_joint :
    (op : ℕ → ℕ → ℕ)
    → op 0 0 ≡ 0
    → ((a b m n : ℕ) → b < 256 → n < 256 → op (a * 256 + b) (m * 256 + n) ≡ op a m * 256 + op b n)
    → (f g : ℕ → ℕ) → FitsByte f
    → FitsByte g
    → (bs : Bytes) → are_bytes bs ≡ true
    → op (pack (map f bs)) (pack (map g bs)) ≡ pack (map (λ b. op (f b) (g b)) bs)
unfolding pack are_bytes
pack-map_joint op at_zero split f g fits fits_2 [] h = at_zero
pack-map_joint op at_zero split f g fits fits_2 (b ∷ bs) h =
    let small : b < 256 = ground (arith, h) in
    let rest = pack-map_joint op at_zero split f g fits fits_2 bs (ground (arith, h)) in
    split (pack (map f bs)) (f b) (pack (map g bs)) (g b) (fits b small) (fits_2 b small)
    ∙ ap (λ t. t * 256 + op (f b) (g b)) rest

pack-map_sum :
    (f g : ℕ → ℕ) (bs : Bytes) → pack (map f bs) + pack (map g bs) ≡ pack (map (λ b. f b + g b) bs)
unfolding pack
pack-map_sum f g [] = refl
pack-map_sum f g (b ∷ bs) = omega (arith, pack-map_sum f g bs)

pub pack-map_difference :
    (f g : ℕ → ℕ)
    → ((b : ℕ) → b < 256 → g b ≤ f b)
    → (bs : Bytes) → are_bytes bs ≡ true
    → pack (map f bs) ≡ pack (map (λ b. f b - g b) bs) + pack (map g bs)
unfolding pack are_bytes
pack-map_difference f g below [] h = refl
pack-map_difference f g below (b ∷ bs) h =
    ground (arith, h, below b, pack-map_difference f g below bs)

map-id : (bs : Bytes) → map (λ b. b) bs ≡ bs
map-id [] = refl
map-id (b ∷ bs) = ap (λ t. b ∷ t) (map-id bs)

map-constant : (c : ℕ) (bs : Bytes) → map (λ b. c) bs ≡ replicate (length bs) c
map-constant c [] = refl
map-constant c (b ∷ bs) = ap (λ t. c ∷ t) (map-constant c bs)

pack-replicate_8 : (c : ℕ) → pack (replicate 8 c) ≡ lo * c
unfolding pack
pack-replicate_8 c = omega arith

pub map-same :
    (f g : ℕ → ℕ)
    → ((b : ℕ) → b < 256 → f b ≡ g b)
    → (bs : Bytes) → are_bytes bs ≡ true
    → map f bs ≡ map g bs
unfolding are_bytes
map-same f g same [] h = refl
map-same f g same (b ∷ bs) h =
    let small : b < 256 = ground (arith, h) in
    rw (same b small, map-same f g same bs (ground (arith, h))) refl

-- The word w holds f b in the lane of each byte b.
pub record IsLanes (bs : Bytes) (f : ℕ → ℕ) (w : ℕ) : Type 0 where
  pub spread : w ≡ pack (map f bs)
  pub fits : FitsByte f

module _ (bs : Bytes) (bytes : are_bytes bs ≡ true) (eight : length bs ≡ 8) where
  pub word_bound : (f : ℕ → ℕ) → FitsByte f → pack (map f bs) < 18446744073709551616
  word_bound f fits =
      let size : length (map f bs) ≡ 8 = length-map bs f ∙ eight in
      let bound = pack-bound (map f bs) (map-are_bytes f bs fits bytes) in
      ground (arith, bound, ap (λ t. 256 ^ t) size)

  pub bytes-IsLanes : IsLanes bs (λ b. b) (pack bs)
  bytes-IsLanes = record { spread = ap pack (sym (map-id bs)); fits = λ b h. h }

  pub constant-IsLanes : (c : ℕ) → c < 256 → IsLanes bs (λ b. c) (lo * c)
  constant-IsLanes c h = record {
    spread =
        sym
          (ap pack (map-constant c bs) ∙ ap (λ t. pack (replicate t c)) eight ∙ pack-replicate_8 c);
    fits = λ b g. h;
  }

  module _ {f g : ℕ → ℕ} {w v : ℕ} where
    pub and-IsLanes :
        IsLanes bs f w → IsLanes bs g v → IsLanes bs (λ b. bit_and (f b) (g b)) (bit_and w v)
    and-IsLanes p q = record {
      spread =
          rw (p.spread, q.spread)
            (pack-map_joint bit_and refl (bit_and-split 8) f g p.fits q.fits bs bytes);
      fits = λ b h. bit_and-bound 8 (f b) (g b) (p.fits b h) (q.fits b h);
    }

    pub or-IsLanes :
        IsLanes bs f w → IsLanes bs g v → IsLanes bs (λ b. bit_or (f b) (g b)) (bit_or w v)
    or-IsLanes p q = record {
      spread =
          rw (p.spread, q.spread)
            (pack-map_joint bit_or refl (bit_or-split 8) f g p.fits q.fits bs bytes);
      fits = λ b h. bit_or-bound 8 (f b) (g b) (p.fits b h) (q.fits b h);
    }

    pub xor-IsLanes :
        IsLanes bs f w → IsLanes bs g v → IsLanes bs (λ b. bit_xor (f b) (g b)) (bit_xor w v)
    xor-IsLanes p q = record {
      spread =
          rw (p.spread, q.spread)
            (pack-map_joint bit_xor refl (bit_xor-split 8) f g p.fits q.fits bs bytes);
      fits = λ b h. bit_xor-bound 8 (f b) (g b) (p.fits b h) (q.fits b h);
    }

    pub plus-IsLanes :
        IsLanes bs f w
        → IsLanes bs g v
        → ((b : ℕ) → b < 256 → f b + g b < 256)
        → IsLanes bs (λ b. f b + g b) (plus w v)
    plus-IsLanes p q room = record {
      spread =
          omega (arith, p.spread, q.spread, pack-map_sum f g bs, word_bound (λ b. f b + g b) room);
      fits = room;
    }

    pub minus-IsLanes :
        IsLanes bs f w
        → IsLanes bs g v
        → ((b : ℕ) → b < 256 → g b ≤ f b)
        → IsLanes bs (λ b. f b - g b) (minus w v)
    minus-IsLanes p q below = record {
      spread =
          omega (
            arith,
            p.spread,
            q.spread,
            pack-map_difference f g below bs bytes,
            word_bound f p.fits,
          );
      fits = λ b h. omega (arith, p.fits b h);
    }

  module _ {f : ℕ → ℕ} {w : ℕ} where
    pub complement-IsLanes : IsLanes bs f w → IsLanes bs (λ b. 255 - f b) (complement w)
    complement-IsLanes p =
        let all = constant-IsLanes 255 (omega arith) in
        let below : (b : ℕ) → b < 256 → f b ≤ 255 = λ b h. omega (arith, p.fits b h) in
        record {
          spread = omega (
            arith,
            p.spread,
            all.spread,
            pack-map_difference (λ b. 255) f below bs bytes,
            word_bound f p.fits,
          );
          fits = λ b h. omega arith;
        }

    -- What the lanes hold may be written in another way, byte by byte.
    pub as_lanes :
        (g : ℕ → ℕ) → ((b : ℕ) → b < 256 → f b ≡ g b) → IsLanes bs f w → w ≡ pack (map g bs)
    as_lanes g same p = p.spread ∙ ap pack (map-same f g same bs bytes)
