-- ===== src/Drivers/Video/Fill.antt =====
-- `clearScreen` paints the visible screen.
use kess_os.Base.{ℕ, zero, suc, ◌+◌, ◌*◌, ◌/◌, ◌^◌, ◌≤◌, ◌<◌, ◌≡◌, ◌⊎◌, inl, inr, refl, arith}
use kess_os.Base.{u32, ◌∙◌}
use native.Mathlib.Nat.{add-zero}
use kess_os.Ram.{Ram, load32, store32}
use kess_os.Ram.Laws.{store-outside, load32-store32, load-cong}
use kess_os.Drivers.Video.{Canvas, fill_row, fill_rows, clear_screen}

fill_row-outside :
    (color left ptr : ℕ) (m : Ram) (x : ℕ)
    → (x < ptr) ⊎ (ptr + 4 * left ≤ x)
    → fill_row color left ptr m x ≡ m x
unfolding fill_row
fill_row-outside color zero ptr m x h = refl
fill_row-outside color (suc left) ptr m x h = ground (
  arith,
  fill_row-outside color left (ptr + 4) (store32 m ptr color) x,
  store-outside 4 m ptr color x,
)

fill_row-inside :
    (color left ptr : ℕ) (m : Ram) (k : ℕ)
    → color < 2 ^ 32
    → k < left
    → load32 (fill_row color left ptr m) (ptr + 4 * k) ≡ color
unfolding fill_row
fill_row-inside color zero ptr m k small h = absurd (omega arith)
fill_row-inside color (suc left) ptr m zero small h =
    load-cong 4 _ (store32 m ptr color) (ptr + 4 * 0)
      (λ x p q. fill_row-outside color left (ptr + 4) (store32 m ptr color) x (inl (omega arith)))
    ∙ rw (add-zero ptr) (load32-store32 m ptr color small)
fill_row-inside color (suc left) ptr m (suc k) small h =
    let shift : ptr + 4 * suc k ≡ ptr + 4 + 4 * k = omega arith in
    rw shift (fill_row-inside color left (ptr + 4) (store32 m ptr color) k small (omega arith))

module _ (color base row : ℕ) where
  pub fill_rows-outside :
      (left vsl : ℕ) (m : Ram) (x : ℕ)
      → (x < base + row * vsl) ⊎ (base + row * (vsl + left) ≤ x)
      → fill_rows color base row left vsl m x ≡ m x
  unfolding fill_rows
  fill_rows-outside zero vsl m x h = refl
  fill_rows-outside (suc left) vsl m x h =
      let next = fill_row color (row / 4) (base + row * vsl) m in
      fill_rows-outside left (vsl + 1) next x (later h)
      ∙ fill_row-outside color (row / 4) (base + row * vsl) m x (this h)
    where
      later :
          (x < base + row * vsl) ⊎ (base + row * (vsl + suc left) ≤ x)
          → (x < base + row * (vsl + 1)) ⊎ (base + row * (vsl + 1 + left) ≤ x)
      later (inl l) = inl (omega arith)
      later (inr l) = inr (omega arith)

      this :
          (x < base + row * vsl) ⊎ (base + row * (vsl + suc left) ≤ x)
          → (x < base + row * vsl) ⊎ (base + row * vsl + 4 * (row / 4) ≤ x)
      this (inl l) = inl l
      this (inr l) = inr (grind arith)

  fill_rows-inside :
      (left vsl : ℕ) (m : Ram) (r k : ℕ)
      → color < 2 ^ 32
      → r < left
      → k < row / 4
      → load32 (fill_rows color base row left vsl m) (base + row * (vsl + r) + 4 * k) ≡ color
  unfolding fill_rows
  fill_rows-inside zero vsl m r k small hr hk = absurd (omega arith)
  fill_rows-inside (suc left) vsl m zero k small hr hk =
      let next = fill_row color (row / 4) (base + row * vsl) m in
      let here : base + row * (vsl + 0) + 4 * k ≡ base + row * vsl + 4 * k = omega arith in
      rw here (
        load-cong 4 _ next (base + row * vsl + 4 * k)
          (λ x p q. fill_rows-outside left (vsl + 1) next x (inl (omega arith)))
        ∙ fill_row-inside color (row / 4) (base + row * vsl) m k small hk)
  fill_rows-inside (suc left) vsl m (suc r) k small hr hk =
      let here : base + row * (vsl + suc r) + 4 * k ≡ base + row * (vsl + 1 + r) + 4 * k =
        omega arith in
      rw here (fill_rows-inside left (vsl + 1) _ r k small (omega arith) hk)

pub screen_bounds :
    (base ppsl height x : ℕ)
    → (x < base) ⊎ (base + 4 * (height * ppsl) ≤ x)
    → (x < base + ppsl * 4 * 0) ⊎ (base + ppsl * 4 * (0 + height) ≤ x)
screen_bounds base ppsl height x (inl l) = inl (omega arith)
screen_bounds base ppsl height x (inr l) = inr (omega arith)

-- `clearScreen` paints every pixel of every scan line, changes no byte before the frame buffer or
-- after its last scan line, and puts the cursor back to the top of the first column. The scan
-- line must be short enough for its size in bytes not to wrap.
pub clear_screen-paints :
    (color : ℕ) (canvas : Canvas) (m : Ram)
    → color < 2 ^ 32
    → canvas.lfb.ppsl < 2 ^ 30
    → let r = clear_screen color (canvas, m) in
      ((px py : ℕ)
        → px < canvas.lfb.ppsl
        → py < canvas.lfb.height
        → load32 r.1 (canvas.lfb.base_addr + 4 * (py * canvas.lfb.ppsl + px)) ≡ color)
      × ((x : ℕ)
          → (x < canvas.lfb.base_addr)
            ⊎ (canvas.lfb.base_addr + 4 * (canvas.lfb.height * canvas.lfb.ppsl) ≤ x)
          → r.1 x ≡ m x)
      × (r.0 ≡ record canvas { x = 0; y = 55; prev_x = 0 })
unfolding clear_screen
clear_screen-paints color canvas m small short =
    let base = canvas.lfb.base_addr in
    let ppsl = canvas.lfb.ppsl in
    let row = u32 (ppsl * 4) in
    let row_eq : row ≡ ppsl * 4 = omega arith in
    (
      (λ px py hx hy.
          let here : base + 4 * (py * ppsl + px) ≡ base + ppsl * 4 * (0 + py) + 4 * px =
            omega arith in
          rw (row_eq, here)
            (fill_rows-inside color base (ppsl * 4) canvas.lfb.height 0 m py px small hy
              (omega arith))),
      (λ x h. rw row_eq (
          fill_rows-outside color base (ppsl * 4) canvas.lfb.height 0 m x
            (screen_bounds base ppsl canvas.lfb.height x h))),
      refl,
    )
