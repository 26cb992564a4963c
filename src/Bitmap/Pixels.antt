-- ===== src/Bitmap/Pixels.antt =====
-- Reading the pixels of an image, inside its bounds and at their edge.
use libopenraw.Prelude.{
  ℕ, zero, suc, ◌+◌, ◌*◌, ◌^◌, ◌≤◌, ◌<◌, ◌≡◌, ◌⊎◌, inl, inr, refl, ap, Bool-cases, none, some, List,
  length, take, drop, ltb, ok, panic, arith, lt→ltb, ge→ltb, le→leb, gt→leb, subst, sym,
}
use libopenraw.Bitmap.{ImageBuffer, u32, offset_of, pixel_at}

-- An image whose data is exactly its pixels, with room in a `u32` for one more row.
pub record IsWhole {T : Type 0} (img : ImageBuffer T) : Type 0 where
  pub filled : length img.data_of ≡ img.width * img.height * img.cc
  pub small : img.width * (img.height + 1) * img.cc < 2 ^ 32
  pub coloured : 1 ≤ img.cc

room : (k n c : ℕ) → k < n → k * c + c ≤ n * c
room zero (suc n) c h = omega arith
room zero zero c h = absurd (omega (arith, h))
room (suc k) (suc n) c h = omega (arith, room k n c (omega (arith, h)))
room (suc k) zero c h = absurd (omega (arith, h))

mul_mono : (k n c : ℕ) → k ≤ n → k * c ≤ n * c
mul_mono zero n c h = omega arith
mul_mono (suc k) zero c h = absurd (omega (arith, h))
mul_mono (suc k) (suc n) c h = omega (arith, mul_mono k n c (omega (arith, h)))

le-mul : (a c : ℕ) → 1 ≤ c → a ≤ a * c
le-mul zero c h = omega arith
le-mul (suc a) c h = omega (arith, le-mul a c h)

cell : (w h x y : ℕ) → x < w → y < h → y * w + x < w * h
cell w zero x y hx hy = absurd (omega arith)
cell w (suc h) x zero hx hy = omega arith
cell w (suc h) x (suc y) hx hy = omega (arith, cell w h x y hx (omega arith))

u32_lem : (n : ℕ) → n < 2 ^ 32 → u32 n ≡ ok n
unfolding u32
u32_lem n h = rw (lt→ltb n (2 ^ 32) h) refl

module _ {T : Type 0} (img : ImageBuffer T) (whole : IsWhole img) where
  offset_of_lem :
      (x y : ℕ)
      → (y * img.width + x) * img.cc < 2 ^ 32
      → offset_of img x y ≡ ok ((y * img.width + x) * img.cc)
  unfolding offset_of
  offset_of_lem x y h =
      let split : (y * img.width + x) * img.cc ≡ y * img.width * img.cc + x * img.cc =
        omega arith in
      let a : y * img.width < 2 ^ 32 =
        omega (arith, h, split, le-mul (y * img.width) img.cc whole.coloured) in
      rw
        (
          u32_lem (y * img.width) a,
          u32_lem (y * img.width * img.cc) (omega (arith, h, split)),
          u32_lem (x * img.cc) (omega (arith, h, split)),
          u32_lem (y * img.width * img.cc + x * img.cc) (omega (arith, h, split)),
        )
        (ap ok (omega (arith, split)))

  -- The pixel at `k` pixels from the start.
  abbrev pub nth : ℕ → List T
  nth k = take img.cc (drop (k * img.cc) img.data_of)

  read_lem :
      (x y : ℕ)
      → x ≤ img.width
      → y ≤ img.height
      → y * img.width + x < img.width * img.height
      → pixel_at img x y ≡ ok (some (nth (y * img.width + x)))
  unfolding pixel_at
  read_lem x y hx hy inside =
      let fits : (y * img.width + x) * img.cc + img.cc ≤ img.width * img.height * img.cc =
        room (y * img.width + x) (img.width * img.height) img.cc inside in
      rw
        (
          ge→ltb img.width x hx,
          ge→ltb img.height y hy,
          offset_of_lem x y (
              omega (
                arith,
                fits,
                whole.small,
                whole.coloured,
                mul_mono (img.width * img.height) (img.width * (img.height + 1)) img.cc
                    (omega arith),
              )),
          le→leb ((y * img.width + x) * img.cc + img.cc) (length img.data_of)
              (omega (arith, fits, whole.filled)),
        )
        refl

  outside_lem : (x y : ℕ) → (img.width < x) ⊎ (img.height < y) → pixel_at img x y ≡ ok none
  unfolding pixel_at
  outside_lem x y (inl wide) = rw (lt→ltb img.width x wide) refl
  outside_lem x y (inr tall) = elim (Bool-cases (ltb img.width x)) [
    | inl e ↦ rw e refl
    | inr e ↦ rw (e, lt→ltb img.height y tall) refl
  ]

  below_lem : (x : ℕ) → x ≤ img.width → pixel_at img x img.height ≡ panic
  unfolding pixel_at
  below_lem x hx =
      let low : img.width * img.height ≤ img.height * img.width + x = omega arith in
      rw
        (
          ge→ltb img.width x hx,
          ge→ltb img.height img.height (omega arith),
          offset_of_lem x img.height (
              omega (
                arith,
                whole.small,
                mul_mono (img.height * img.width + x) (img.width * (img.height + 1)) img.cc
                    (omega (arith, hx)),
              )),
          gt→leb ((img.height * img.width + x) * img.cc + img.cc) (length img.data_of) (
              omega (
                arith,
                whole.filled,
                whole.coloured,
                mul_mono (img.width * img.height) (img.height * img.width + x) img.cc low,
              )),
        )
        refl

  -- In an image whose data is exactly its pixels, with one component at least and room in a `u32`
  -- for one more row, `pixel_at` returns the components of the pixel where `x` and `y` are inside,
  -- and none where one of them is beyond the width or the height. On the edge it does neither: in
  -- the column `width` it returns the first pixel of the next row, and in the row `height` it panics.
  pub pixel_at_outcome :
      (x y : ℕ)
      → (x < img.width → y < img.height → pixel_at img x y ≡ ok (some (nth (y * img.width + x))))
        × ((img.width < x) ⊎ (img.height < y) → pixel_at img x y ≡ ok none)
        × (x ≡ img.width
            → y + 1 < img.height
            → 0 < img.width
            → pixel_at img x y ≡ ok (some (nth ((y + 1) * img.width))))
        × (y ≡ img.height → x ≤ img.width → pixel_at img x y ≡ panic)
  pixel_at_outcome x y = (
    λ hx hy.
        read_lem x y (omega (arith, hx)) (omega (arith, hy)) (cell img.width img.height x y hx hy),
    outside_lem x y,
    λ ex hy some_width.
        let next : y * img.width + x ≡ (y + 1) * img.width = omega (arith, ex) in
        let inside : y * img.width + x < img.width * img.height =
          omega (arith, next, cell img.width img.height 0 (y + 1) some_width hy) in
        subst (λ k. pixel_at img x y ≡ ok (some (nth k))) next
          (read_lem x y (omega (arith, ex)) (omega (arith, hy)) inside),
    λ ey hx. subst (λ h. pixel_at img x h ≡ panic) (sym ey) (below_lem x hx),
  )
