-- ===== src/Prelude/Fields.antt =====
-- `|` and `&` on numbers that are cut in two at a binary digit.
use Prim.Native.Nat.{ℕ, zero, suc, ◌+◌, ◌-◌, ◌*◌, ◌/◌, ◌%◌, ◌^◌, ◌<◌, bit_and, bit_or}
use Prim.Native.Nat.{bit_or-bitwise}
use mathlib.Core.Path.{◌≡◌, sym, ap, ◌∙◌}
use native.Mathlib.Nat.{pow-suc}
use native.Mathlib.Omega.{arith}
use poplar.Prelude.Bits.{
  bit_or_step, bit_and_step, double_field, bit_and_mask, bit_or-zero, bit_and-zero,
}

pub bit_or_split :
    (k xh xl yh yl : ℕ)
    → xl < 2 ^ k
    → yl < 2 ^ k
    → bit_or (xh * 2 ^ k + xl) (yh * 2 ^ k + yl) ≡ bit_or xh yh * 2 ^ k + bit_or xl yl
bit_or_split zero xh xl yh yl hx hy =
    let ex : xl ≡ 0 = omega arith in
    let ey : yl ≡ 0 = omega arith in
    let hx : xh * 2 ^ 0 + 0 ≡ xh = omega arith in
    let hy : yh * 2 ^ 0 + 0 ≡ yh = omega arith in rw (ex, ey, hx, hy) (omega arith)
bit_or_split (suc k) xh xl yh yl hx hy =
    let p : 2 ^ suc k ≡ 2 * 2 ^ k = omega (arith, pow-suc 2 k) in
    let ih = bit_or_split k xh (xl / 2) yh (yl / 2) (omega arith) (omega arith) in
    let xd : (xh * 2 ^ suc k + xl) / 2 ≡ xh * 2 ^ k + xl / 2 = omega (arith, double_field xh k) in
    let yd : (yh * 2 ^ suc k + yl) / 2 ≡ yh * 2 ^ k + yl / 2 = omega (arith, double_field yh k) in
    let xm : (xh * 2 ^ suc k + xl) % 2 ≡ xl % 2 = omega (arith, double_field xh k) in
    let ym : (yh * 2 ^ suc k + yl) % 2 ≡ yl % 2 = omega (arith, double_field yh k) in
    bit_or_step (xh * 2 ^ suc k + xl) (yh * 2 ^ suc k + yl)
    ∙ rw (xd, yd, xm, ym) (omega (arith, ih, bit_or_step xl yl, double_field (bit_or xh yh) k))

pub bit_and_split :
    (k xh xl yh yl : ℕ)
    → xl < 2 ^ k
    → yl < 2 ^ k
    → bit_and (xh * 2 ^ k + xl) (yh * 2 ^ k + yl) ≡ bit_and xh yh * 2 ^ k + bit_and xl yl
bit_and_split zero xh xl yh yl hx hy =
    let ex : xl ≡ 0 = omega arith in
    let ey : yl ≡ 0 = omega arith in
    let hx : xh * 2 ^ 0 + 0 ≡ xh = omega arith in
    let hy : yh * 2 ^ 0 + 0 ≡ yh = omega arith in rw (ex, ey, hx, hy) (omega arith)
bit_and_split (suc k) xh xl yh yl hx hy =
    let ih =
      bit_and_split k xh (xl / 2) yh (yl / 2) (omega (arith, pow-suc 2 k))
        (omega (arith, pow-suc 2 k)) in
    let xd : (xh * 2 ^ suc k + xl) / 2 ≡ xh * 2 ^ k + xl / 2 = omega (arith, double_field xh k) in
    let yd : (yh * 2 ^ suc k + yl) / 2 ≡ yh * 2 ^ k + yl / 2 = omega (arith, double_field yh k) in
    let xm : (xh * 2 ^ suc k + xl) % 2 ≡ xl % 2 = omega (arith, double_field xh k) in
    let ym : (yh * 2 ^ suc k + yl) % 2 ≡ yl % 2 = omega (arith, double_field yh k) in
    bit_and_step (xh * 2 ^ suc k + xl) (yh * 2 ^ suc k + yl)
    ∙ rw (xd, yd, xm, ym) (omega (arith, ih, bit_and_step xl yl, double_field (bit_and xh yh) k))

-- A word of 64 bits whose bits 12 to 51 are the number of a frame: flags above and below it.
abbrev pub entry_word : ℕ → ℕ → ℕ → ℕ
entry_word top frame low = (top * 2 ^ 51 + frame) * 2 ^ 12 + low

zero_or : (x : ℕ) → bit_or 0 x ≡ x
zero_or x = simp bit_or-bitwise

pub entry_word_or :
    (top frame low : ℕ)
    → frame < 2 ^ 40
    → low < 2 ^ 12
    → bit_or (frame * 2 ^ 12) (top * 2 ^ 63 + low) ≡ entry_word top frame low
entry_word_or top frame low hf hl =
    let y : top * 2 ^ 63 + low ≡ top * 2 ^ 51 * 2 ^ 12 + low = omega arith in
    let x : frame * 2 ^ 12 ≡ frame * 2 ^ 12 + 0 = omega arith in
    let outer = bit_or_split 12 frame 0 (top * 2 ^ 51) low (omega arith) hl in
    let inner = bit_or_split 40 0 frame (top * 2 ^ 11) 0 hf (omega arith) in
    let xi : 0 * 2 ^ 40 + frame ≡ frame = omega arith in
    let yi : top * 2 ^ 11 * 2 ^ 40 + 0 ≡ top * 2 ^ 51 = omega arith in
    rw (x, y)
      (outer
        ∙ omega (
          arith,
          zero_or low,
          zero_or (top * 2 ^ 11),
          bit_or-zero frame,
          sym (ap (λ t. bit_or t (top * 2 ^ 51)) xi)
              ∙ sym (ap (bit_or (0 * 2 ^ 40 + frame)) yi)
              ∙ inner,
        ))

pub entry_word_frame :
    (top frame low : ℕ)
    → frame < 2 ^ 40
    → low < 2 ^ 12
    → bit_and (entry_word top frame low) ((2 ^ 40 - 1) * 2 ^ 12) ≡ frame * 2 ^ 12
entry_word_frame top frame low hf hl =
    let outer = bit_and_split 12 (top * 2 ^ 51 + frame) low (2 ^ 40 - 1) 0 hl (omega arith) in
    let inner = bit_and_mask 40 (top * 2 ^ 51 + frame) in
    let m : (top * 2 ^ 51 + frame) % 2 ^ 40 ≡ frame = omega arith in
    outer ∙ omega (arith, inner, m, bit_and-zero low)

-- A flag below the frame, among some flags that hold those below the ninth digit.
pub entry_word_flag :
    (top frame low high flag : ℕ)
    → low < 2 ^ 9
    → flag < 2 ^ 12
    → bit_and (bit_and (entry_word top frame low) (high * 2 ^ 12 + (2 ^ 9 - 1))) flag
      ≡ bit_and low flag
entry_word_flag top frame low high flag hl hm =
    let rest = bit_and (top * 2 ^ 51 + frame) high in
    let m : low % 2 ^ 9 ≡ low = omega arith in
    let inner =
      bit_and_split 12 (top * 2 ^ 51 + frame) low high (2 ^ 9 - 1) (omega arith) (omega arith) in
    let kept : bit_and low (2 ^ 9 - 1) ≡ low = bit_and_mask 9 low ∙ m in
    let outer = bit_and_split 12 rest low 0 flag (omega arith) hm in
    let z : 0 * 2 ^ 12 + flag ≡ flag = omega arith in
    ap (λ t. bit_and t flag) (inner ∙ ap (λ t. rest * 2 ^ 12 + t) kept)
    ∙ ap (bit_and (rest * 2 ^ 12 + low)) (sym z)
    ∙ outer
    ∙ omega (arith, bit_and-zero rest)
